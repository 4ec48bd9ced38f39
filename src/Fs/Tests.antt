-- ===== src/Fs/Tests.antt =====
-- A hash map as a list of its entries, and a file system with the one directory `/`.
use qnixx.Common.{
  ℕ, ◌≡◌, refl, Bool, true, false, ◌&&◌, some, List, [], ◌∷◌, ◌==◌, if◌then◌else◌, arith, replicate,
}
use qnixx.Fs.{HashMap, Vfs, VType, VState, slash, path2vnode, vfs_append_child, vfs_make_vnode}
use qnixx.Fs.Names.{text, split_on}
use qnixx.Fs.Lookup.{walk, resolve, path2vnode-resolve}
use qnixx.Fs.Nodes.{MapLaws, vfs_make_vnode_too_long, path2vnode-vfs_append_child}

abbrev same : List ℕ → List ℕ → Bool
same [] [] = true
same (x ∷ xs) (y ∷ ys) = (x == y) && same xs ys
same _ _ = false

same_refl : (xs : List ℕ) → same xs xs ≡ true
same_refl [] = refl
same_refl (x ∷ xs) = ground (arith, same_refl xs)

-- The last entry counts.
abbrev find : List (List ℕ × ℕ) → List ℕ → ℕ
find [] key = 0
find ((k, v) ∷ rest) key = if same k key then v else find rest key

abbrev lib : HashMap
lib = record {
  Map = List (List ℕ × ℕ);
  create = λ size. some [];
  put = λ m key value. (0, (key, value) ∷ m);
  get = find;
}

laws : MapLaws lib
laws = record { get_put = λ m key value stored. rw (same_refl key) refl }

abbrev vfs : Vfs lib.Map
vfs = record {
  fs_root = 16;
  vnodes = λ _. record {
    v_name = λ _. 0;
    v_type = VType.vdir;
    v_state = VState.vstate_constructed;
    v_flags = 9;
    children = (100 ∷ 101 ∷ [], 32) ∷ [];
    n_children = 0;
  };
}

-- `/de/de`
path2vnode-resolve_example :
    path2vnode lib 9 (λ _. 7) (text (slash ∷ 100 ∷ 101 ∷ slash ∷ 100 ∷ 101 ∷ [])) vfs
    ≡ some (resolve lib vfs (slash ∷ 100 ∷ 101 ∷ slash ∷ 100 ∷ 101 ∷ []))
path2vnode-resolve_example =
    path2vnode-resolve lib vfs (slash ∷ 100 ∷ 101 ∷ slash ∷ 100 ∷ 101 ∷ []) (λ _. 7) 9 (omega arith)
      (omega arith)

-- The path is followed: it is the child of the child.
resolve_runs : resolve lib vfs (slash ∷ 100 ∷ 101 ∷ slash ∷ 100 ∷ 101 ∷ []) ≡ 32
unfolding split_on walk
resolve_runs = refl

path2vnode-vfs_append_child_example :
    (one : Vfs lib.Map) × (two : Vfs lib.Map) × (vfs_make_vnode lib 9 64
        (text (97 ∷ 98 ∷ []))
        VType.vreg
        false
        vfs
      ≡ some (64, one))
    × (vfs_append_child lib 9 0 64 one ≡ some two)
    × (path2vnode lib 10 (λ _. 7) (text (slash ∷ 97 ∷ 98 ∷ [])) two ≡ some 64)
path2vnode-vfs_append_child_example =
    path2vnode-vfs_append_child lib vfs (97 ∷ 98 ∷ []) (omega arith) 9 (omega arith) laws 64
      VType.vreg false [] (λ _. 7) (omega arith) (omega arith) refl (omega arith) (omega arith) refl

abbrev long_name : List ℕ
long_name = replicate 300 97

vfs_make_vnode_too_long_example :
    (vfs_make_vnode lib 301 64 (text long_name) VType.vreg false vfs ≡ some (0, vfs))
    × (path2vnode lib 302 (λ _. 7) (text (slash ∷ long_name)) vfs ≡ some 0)
vfs_make_vnode_too_long_example =
    vfs_make_vnode_too_long lib vfs long_name (omega arith) 301 (omega arith) 64 VType.vreg false
      (λ _. 7) (omega arith) (omega arith)

-- ===== src/Fs.antt =====
-- sys/fs/vfs.c and sys/include/sys/vnode.h: the tree of vnodes, and paths. The hash map is a library
-- that the source brings along: it is an argument. Addresses are numbers, and 0 is NULL.
pub mod Names
pub mod Lookup
pub mod Nodes
mod Tests
use qnixx.Common.{
  ℕ, zero, suc, ◌+◌, ◌-◌, Bool, true, false, ◌||◌, Option, none, some, List, [], ◌∷◌, ◌==◌, leb,
  ltb, if◌then◌else◌, bit_or, update,
}
use qnixx.Libkern.String.{Chars, strlen}

-- `NAME_MAX`
abbrev pub name_max : ℕ
name_max = 255

-- `'/'`
abbrev pub slash : ℕ
slash = 47

-- What the file uses of the hash map: a map from byte strings to addresses. `create` takes the
-- initial size and may fail, `put` returns 0 on success, and `get` returns NULL where nothing was put.
pub record HashMap : Type 1 where
  pub Map : Type 0
  pub create : ℕ → Option Map
  pub put : Map → List ℕ → ℕ → ℕ × Map
  pub get : Map → List ℕ → ℕ

-- `vtype_t`
pub data VType : Type 0 where
  vnon vreg vdir vblk vchr vbad : VType

-- `vstate_t`
pub data VState : Type 0 where
  vstate_uninit vstate_constructed vstate_destroying vstate_dead : VState

-- `vnode_t`. The lock and the operations are never touched here.
pub record VNode (Map : Type 0) : Type 0 where
  pub v_name : Chars
  pub v_type : VType
  pub v_state : VState
  pub v_flags : ℕ
  pub children : Map
  pub n_children : ℕ

-- `fs_root`, and the vnodes by address.
pub record Vfs (Map : Type 0) : Type 0 where
  pub fs_root : ℕ
  pub vnodes : ℕ → VNode Map

-- The first `n` bytes of a string: a key is given by its address and its length.
abbrev pub key_of : ℕ → Chars → List ℕ
key_of zero str = []
key_of (suc n) str = str 0 ∷ key_of n (λ i. str (i + 1))

-- `'\0'` or `'/'`
abbrev pub ends_name : ℕ → Bool
ends_name c = (c == slash) || (c == 0)

module _ (lib : HashMap) where
  -- `none` is a name that has no end within `fuel` bytes.
  unfoldable pub name2vnode : ℕ → Chars → ℕ → Vfs lib.Map → Option ℕ
  name2vnode fuel name parent vfs = elim (strlen fuel name) [
    | none ↦ none
    | some n ↦ some (lib.get (vfs.vnodes parent).children (key_of n name))
  ]

  -- `while (1)` of `path2vnode`, on fuel. `path_loop_end` is what it does at the end of a name.
  unfoldable pub path_loop : ℕ → Chars → Vfs lib.Map → (current ptr : ℕ) → Chars → ℕ → Option ℕ
  path_loop zero path vfs current ptr fname fname_idx = none
  path_loop (suc fuel) path vfs current ptr fname fname_idx =
      let store =
        path_loop fuel path vfs current (ptr + 1) (update fname fname_idx (path ptr))
          (fname_idx + 1) in
      let next = λ (found : ℕ). path_loop fuel path vfs found (ptr + 1) (λ _. 0) 0 in
      if leb name_max fname_idx
      then some 0
      else if ends_name (path ptr)
      then elim (name2vnode (name_max + 1) (update fname fname_idx 0) current vfs) [
        | none ↦ none
        | some found ↦
            if found == 0
            then some 0
            else if path ptr == 0
            then some (if found == vfs.fs_root then 0 else found)
            else next found
      ]
      else store

  -- `fname` is what the stack holds.
  unfoldable pub path2vnode : ℕ → Chars → Chars → Vfs lib.Map → Option ℕ
  path2vnode fuel fname path vfs =
      if path 0 == slash then path_loop fuel path vfs vfs.fs_root 1 fname 0 else some 0

  -- The status of `hashmap_put` is not looked at.
  unfoldable pub vfs_append_child : ℕ → (parent child : ℕ) → Vfs lib.Map → Option (Vfs lib.Map)
  vfs_append_child fuel parent child vfs =
      let name = (vfs.vnodes child).v_name in
      let at = if parent == 0 then vfs.fs_root else parent in
      let node = vfs.vnodes at in
      elim (strlen fuel name) [
        | none ↦ none
        | some n ↦ some (record vfs {
          vnodes =
              update vfs.vnodes at
                (record node { children = (lib.put node.children (key_of n name) child).1 });
        })
      ]

  -- The vnode as it is filled in, in memory that `kcalloc` has cleared.
  abbrev pub new_vnode : (name : Chars) (n : ℕ) → VType → Bool → lib.Map → VNode lib.Map
  new_vnode name n vtype is_mountpoint children = record {
    v_name = λ i. if ltb i n then name i else 0;
    v_type = vtype;
    v_state = VState.vstate_constructed;
    v_flags = if is_mountpoint then 8 else 0;
    children = children;
    n_children = 0;
  }

  -- `new` is what `kcalloc` returns. `none` is a failed assertion or a name without an end.
  unfoldable pub vfs_make_vnode :
      (fuel new : ℕ) → Chars → VType → Bool → Vfs lib.Map → Option (ℕ × Vfs lib.Map)
  vfs_make_vnode fuel new name vtype is_mountpoint vfs = elim (strlen fuel name) [
    | none ↦ none
    | some n ↦ if leb name_max n then some (0, vfs) else elim (lib.create 2) [
      | none ↦ none
      | some children ↦ some (
        new,
        record vfs {
          vnodes = update vfs.vnodes new (new_vnode name n vtype is_mountpoint children);
        },
      )
    ]
  ]

  -- `V_ROOT` is bit 0.
  unfoldable pub vfs_init : (new : ℕ) → Vfs lib.Map → Option (Vfs lib.Map)
  vfs_init new vfs = elim (vfs_make_vnode 1 new (λ _. 0) VType.vdir true vfs) [
    | none ↦ none
    | some (root, made) ↦
        let node = made.vnodes root in
        some (record made {
          fs_root = root;
          vnodes = update made.vnodes root (record node { v_flags = bit_or node.v_flags 1 });
        })
  ]

-- ===== src/Fs/Nodes.antt =====
-- Vnodes that are made, appended and found again.
use qnixx.Common.{
  ℕ, suc, ◌≤◌, ◌<◌, ◌≡◌, ◌≢◌, refl, sym, ap, ◌∙◌, Bool, false, some, List, [], ◌∷◌, length, All,
  le→leb, le→ltb, lt→ltb, ltb, leb, ne→==, if◌then◌else◌, update, update_self, update_ne, arith,
}
use qnixx.Libkern.String.{Chars, strlen}
use qnixx.Libkern.String.Compare.{strlen_from_lem}
use qnixx.Fs.{
  HashMap, Vfs, VNode, VType, slash, key_of, new_vnode, path2vnode, vfs_append_child,
  vfs_make_vnode,
}
use qnixx.Fs.Names.{text, Nonzero, NotSlash, key_of-text, strlen-text, split_on-name, text-ne_zero}
use qnixx.Fs.Lookup.{child, not_root, walk, path2vnode-resolve, walk-long, walk-next}

-- What the hash map promises: a value that was put is found under its key.
pub record MapLaws (lib : HashMap) : Type 0 where
  pub get_put :
      (m : lib.Map) (key : List ℕ) (value : ℕ)
      → (lib.put m key value).0 ≡ 0
      → lib.get (lib.put m key value).1 key ≡ value

-- The name as it stands in a vnode.
abbrev pub copied : List ℕ → Chars
copied w i = if ltb i (length w) then text w i else 0

copied_below : (w : List ℕ) (i : ℕ) → i < length w → copied w i ≡ text w i
copied_below w i h = rw (lt→ltb i (length w) h) refl

strlen-copied :
    (w : List ℕ) (fuel : ℕ)
    → All Nonzero w
    → length w < fuel
    → strlen fuel (copied w) ≡ some (length w)
strlen-copied w fuel nonzero enough =
    strlen_from_lem fuel (copied w) 0 (length w) (omega arith) (omega (arith, enough))
      (rw (le→ltb (length w) (length w) (omega arith)) refl)
      (λ k low lt zero_byte. text-ne_zero w k nonzero lt (sym (copied_below w k lt) ∙ zero_byte))

-- The file system with the new vnode, and with it below the root.
module _ (lib : HashMap) where
  abbrev made : Vfs lib.Map → List ℕ → (new : ℕ) → VType → Bool → lib.Map → Vfs lib.Map
  made vfs w new vtype is_mountpoint children = record vfs {
    vnodes = update vfs.vnodes new (new_vnode lib (text w) (length w) vtype is_mountpoint children);
  }

  abbrev appended : List ℕ → (new : ℕ) → Vfs lib.Map → Vfs lib.Map
  appended w new vfs =
      let node = vfs.vnodes vfs.fs_root in
      record vfs {
        vnodes =
            update vfs.vnodes vfs.fs_root
              (record node { children = (lib.put node.children w new).1 });
      }

lt→leb : (a b : ℕ) → b < a → leb a b ≡ false
lt→leb a b h = ground arith

slash_nonzero : slash ≢ 0
slash_nonzero = omega arith

module _ (lib : HashMap) (vfs : Vfs lib.Map) (w : List ℕ) (nonzero : All Nonzero w) (fuel : ℕ)
    (enough : length w < fuel) where
  vfs_make_vnode-made :
      (new : ℕ) (vtype : VType) (is_mountpoint : Bool) (children : lib.Map)
      → length w < 255
      → lib.create 2 ≡ some children
      → vfs_make_vnode lib fuel new (text w) vtype is_mountpoint vfs
        ≡ some (new, made lib vfs w new vtype is_mountpoint children)
  unfolding vfs_make_vnode
  vfs_make_vnode-made new vtype is_mountpoint children short created =
      rw (strlen-text w fuel nonzero enough, vfs_make_vnode)
        (rw (lt→leb 255 (length w) short, created) refl)

  vfs_append_child-appended :
      (root_vfs : Vfs lib.Map) (new : ℕ)
      → (root_vfs.vnodes new).v_name ≡ copied w
      → vfs_append_child lib fuel 0 new root_vfs ≡ some (appended lib w new root_vfs)
  unfolding vfs_append_child
  vfs_append_child-appended root_vfs new named =
      let measured = ap (strlen fuel) named ∙ strlen-copied w fuel nonzero enough in
      rw (measured, vfs_append_child)
        (ap (λ (key : List ℕ). some (appended lib key new root_vfs))
          (ap (key_of (length w)) named ∙ key_of-text w (copied w) (copied_below w)))

  child-appended :
      (laws : MapLaws lib) (v : Vfs lib.Map) (new : ℕ)
      → (lib.put (v.vnodes v.fs_root).children w new).0 ≡ 0
      → child lib (appended lib w new v) v.fs_root w ≡ new
  child-appended laws v new stored =
      ap (λ (n : VNode lib.Map). lib.get n.children w) (update_self v.vnodes v.fs_root _)
      ∙ laws.get_put (v.vnodes v.fs_root).children w new stored

  path2vnode-appended :
      (laws : MapLaws lib) (v : Vfs lib.Map) (new : ℕ) (fname : Chars)
      → All NotSlash w
      → length w < 255
      → new ≢ 0
      → new ≢ v.fs_root
      → (lib.put (v.vnodes v.fs_root).children w new).0 ≡ 0
      → path2vnode lib (suc fuel) fname (text (slash ∷ w)) (appended lib w new v) ≡ some new
  unfolding walk
  path2vnode-appended laws v new fname plain short ne other stored =
      let here = child-appended laws v new stored in
      let after = appended lib w new v in
      path2vnode-resolve lib after (slash ∷ w) fname (suc fuel) (slash_nonzero, nonzero)
        (omega (arith, enough))
      ∙ ap (λ (p : List (List ℕ)). some (not_root lib after (walk lib after p v.fs_root)))
          (split_on-name [] w plain)
      ∙ ap (λ (r : ℕ). some (not_root lib after r))
          (walk-next lib after w [] v.fs_root (lt→leb 255 (length w) short) (rw here ne) ∙ here)
      ∙ ap some (rw (ne→== new v.fs_root other) refl)

  -- For a name of 255 bytes or more without slashes and zeros, vfs_make_vnode returns NULL and
  -- changes nothing, and path2vnode of a slash and the name returns NULL.
  pub vfs_make_vnode_too_long :
      (new : ℕ) (vtype : VType) (is_mountpoint : Bool) (fname : Chars)
      → All NotSlash w
      → 255 ≤ length w
      → (vfs_make_vnode lib fuel new (text w) vtype is_mountpoint vfs ≡ some (0, vfs))
        × (path2vnode lib (suc fuel) fname (text (slash ∷ w)) vfs ≡ some 0)
  unfolding vfs_make_vnode
  vfs_make_vnode_too_long new vtype is_mountpoint fname plain long = (
    rw (strlen-text w fuel nonzero enough, vfs_make_vnode) (rw (le→leb 255 (length w) long) refl),
    path2vnode-resolve lib vfs (slash ∷ w) fname (suc fuel) (slash_nonzero, nonzero)
          (omega (arith, enough))
        ∙ ap (λ (p : List (List ℕ)). some (not_root lib vfs (walk lib vfs p vfs.fs_root)))
            (split_on-name [] w plain)
        ∙ ap (λ (r : ℕ). some (not_root lib vfs r)) (walk-long lib vfs w [] vfs.fs_root long)
        ∙ ap some (ground arith),
  )

  -- If the hash map keeps its laws, a name of less than 255 bytes has no slash and no zero, the
  -- map for the children can be made, the new vnode is at an address that is neither NULL nor the
  -- root, and the map stores the name, then vfs_make_vnode and vfs_append_child to the root
  -- return, and path2vnode of a slash and the name gives the new vnode.
  pub path2vnode-vfs_append_child :
      (laws : MapLaws lib) (new : ℕ) (vtype : VType) (is_mountpoint : Bool) (children : lib.Map)
      (fname : Chars)
      → All NotSlash w
      → length w < 255
      → lib.create 2 ≡ some children
      → new ≢ 0
      → new ≢ vfs.fs_root
      → (lib.put (vfs.vnodes vfs.fs_root).children w new).0 ≡ 0
      → (one : Vfs lib.Map) × (two : Vfs lib.Map) × (vfs_make_vnode lib fuel new
            (text w)
            vtype
            is_mountpoint
            vfs
          ≡ some (new, one))
        × (vfs_append_child lib fuel 0 new one ≡ some two)
        × (path2vnode lib (suc fuel) fname (text (slash ∷ w)) two ≡ some new)
  path2vnode-vfs_append_child laws new vtype is_mountpoint children fname plain short created ne
        other stored =
      let one = made lib vfs w new vtype is_mountpoint children in
      let two = appended lib w new one in
      (
        one,
        two,
        vfs_make_vnode-made new vtype is_mountpoint children short created,
        vfs_append_child-appended one new
            (ap (λ (n : VNode lib.Map). n.v_name) (update_self vfs.vnodes new _)),
        path2vnode-appended laws one new fname plain short ne other (
            ap (λ (n : VNode lib.Map). (lib.put n.children w new).0)
              (update_ne vfs.vnodes _ (λ e. other (sym e)))
            ∙ stored),
      )

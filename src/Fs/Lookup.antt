-- ===== src/Fs/Lookup.antt =====
-- `path2vnode` against the walk over the parts of the path.
use qnixx.Common.{
  ℕ, zero, suc, ◌+◌, ◌≤◌, ◌<◌, ◌≡◌, ◌≢◌, refl, sym, ap, ◌∙◌, true, false, some, List, [], ◌∷◌, ◌++◌,
  length, All, length-append, Bool-cases, inl, inr, ◌==◌, ==_iff, ne→==, le→leb, leb, leb→le,
  if◌then◌else◌, update, arith,
}
use qnixx.Libkern.String.{Chars}
use qnixx.Fs.{HashMap, Vfs, slash, name_max, ends_name, name2vnode, path_loop, path2vnode}
use qnixx.Fs.Names.{
  text, Nonzero, Holds, Holds-empty, Holds-update, strlen-Holds, key_of-Holds, split_on,
  split_on-slash, split_on-char, split_on_first,
}

module _ (lib : HashMap) (vfs : Vfs lib.Map) where
  abbrev pub child : ℕ → List ℕ → ℕ
  child current name = lib.get (vfs.vnodes current).children name

  -- From vnode to vnode, a name at a time: a name of 255 bytes or more and a missing child give NULL.
  unfoldable pub walk : List (List ℕ) → ℕ → ℕ
  walk [] current = current
  walk (name ∷ names) current =
      let rest = walk names (child current name) in
      if leb name_max (length name) then 0 else if child current name == 0 then 0 else rest

  -- The root itself is not a result.
  abbrev pub not_root : ℕ → ℕ
  not_root found = if found == vfs.fs_root then 0 else found

  -- The vnode of a path, given as a list of bytes.
  abbrev pub resolve : List ℕ → ℕ
  resolve [] = 0
  resolve (c ∷ cs) = if c == slash then not_root (walk (split_on [] cs) vfs.fs_root) else 0

  not_root-zero : not_root 0 ≡ 0
  not_root-zero = ground arith

  pub walk-long :
      (name : List ℕ) (names : List (List ℕ)) (current : ℕ)
      → 255 ≤ length name
      → walk (name ∷ names) current ≡ 0
  unfolding walk
  walk-long name names current h = rw (le→leb 255 (length name) h) refl

  walk-missing :
      (name : List ℕ) (names : List (List ℕ)) (current : ℕ)
      → leb 255 (length name) ≡ false
      → child current name ≡ 0
      → walk (name ∷ names) current ≡ 0
  unfolding walk
  walk-missing name names current short h = rw (short, h) refl

  pub walk-next :
      (name : List ℕ) (names : List (List ℕ)) (current : ℕ)
      → leb 255 (length name) ≡ false
      → child current name ≢ 0
      → walk (name ∷ names) current ≡ walk names (child current name)
  unfolding walk
  walk-next name names current short h = rw (short, ne→== (child current name) 0 h) refl

  module _ (path : Chars) where
    -- The bytes from `ptr` on.
    record Suffix (ptr : ℕ) (rest : List ℕ) : Type 0 where
      at : (i : ℕ) → path (ptr + i) ≡ text rest i

    Suffix-next : (ptr c : ℕ) (cs : List ℕ) → Suffix ptr (c ∷ cs) → Suffix (ptr + 1) cs
    Suffix-next ptr c cs s = record { at = λ i. ap path (omega arith) ∙ s.at (suc i) }

    Suffix-first : (ptr : ℕ) (rest : List ℕ) → Suffix ptr rest → path ptr ≡ text rest 0
    Suffix-first ptr rest s = ap path (omega arith) ∙ s.at 0

    path_loop-long :
        (fuel current ptr : ℕ) (fname : Chars) (idx : ℕ)
        → leb 255 idx ≡ true
        → path_loop lib (suc fuel) path vfs current ptr fname idx ≡ some 0
    unfolding path_loop
    path_loop-long fuel current ptr fname idx long = rw (long, path_loop) refl

    path_loop-char :
        (fuel current ptr : ℕ) (fname : Chars) (idx : ℕ)
        → leb 255 idx ≡ false
        → ends_name (path ptr) ≡ false
        → path_loop lib (suc fuel) path vfs current ptr fname idx
          ≡ path_loop lib fuel path vfs current (ptr + 1) (update fname idx (path ptr)) (idx + 1)
    unfolding path_loop
    path_loop-char fuel current ptr fname idx short goes_on = rw (short, goes_on, path_loop) refl

    name2vnode-Holds :
        (current : ℕ) (fname : Chars) (w : List ℕ)
        → Holds fname w
        → leb 255 (length w) ≡ false
        → name2vnode lib 256 (update fname (length w) 0) current vfs ≡ some (child current w)
    unfolding name2vnode
    name2vnode-Holds current fname w h short =
        rw (strlen-Holds fname w h 256 (ground arith), key_of-Holds fname w h, name2vnode) refl

    -- The end of a name, where the path ends and where it goes on.
    path_loop-end :
        (fuel current ptr : ℕ) (fname : Chars) (w : List ℕ)
        → Holds fname w
        → leb 255 (length w) ≡ false
        → ends_name (path ptr) ≡ true
        → path_loop lib (suc fuel) path vfs current ptr fname (length w) ≡ (
            if child current w == 0
            then some 0
            else if path ptr == 0
            then some (not_root (child current w))
            else path_loop lib fuel path vfs (child current w) (ptr + 1) (λ _. 0) 0)
    unfolding path_loop
    path_loop-end fuel current ptr fname w h short ends =
        rw (short, ends, name2vnode-Holds current fname w h short, path_loop) refl

    -- The three ways on, each towards the walk over the parts.
    path_loop-too_long :
        (rest : List ℕ) (fuel current ptr : ℕ) (fname : Chars) (w : List ℕ)
        → leb 255 (length w) ≡ true
        → path_loop lib (suc fuel) path vfs current ptr fname (length w)
          ≡ some (not_root (walk (split_on w rest) current))
    path_loop-too_long rest fuel current ptr fname w long =
        let (first, names, eq, longer) = split_on_first w rest in
        let stays = leb→le 255 (length w) long in
        let none_found : walk (split_on w rest) current ≡ 0 =
          ap (λ (p : List (List ℕ)). walk p current) eq
          ∙ walk-long first names current (omega (arith, longer, stays)) in
        path_loop-long fuel current ptr fname (length w) long
        ∙ ap some (sym not_root-zero ∙ ap not_root (sym none_found))

    path_loop-last :
        (fuel current ptr : ℕ) (fname : Chars) (w : List ℕ)
        → Holds fname w
        → leb 255 (length w) ≡ false
        → path ptr ≡ 0
        → path_loop lib (suc fuel) path vfs current ptr fname (length w)
          ≡ some (not_root (walk (w ∷ []) current))
    unfolding walk
    path_loop-last fuel current ptr fname w h short end =
        let ends : ends_name (path ptr) ≡ true = ap ends_name end in
        let here = path_loop-end fuel current ptr fname w h short ends in
        elim (Bool-cases (child current w == 0)) [
          | inl missing ↦ here ∙ rw (missing, short) (ap some (sym not_root-zero))
          | inr found ↦ here ∙ rw (found, short, end) refl
        ]

    path_loop-slash :
        (cs : List ℕ) (fuel current ptr : ℕ) (fname : Chars) (w : List ℕ)
        → Holds fname w
        → leb 255 (length w) ≡ false
        → path ptr ≡ slash
        → path_loop lib fuel path vfs (child current w) (ptr + 1) (λ _. 0) 0
          ≡ some (not_root (walk (split_on [] cs) (child current w)))
        → path_loop lib (suc fuel) path vfs current ptr fname (length w)
          ≡ some (not_root (walk (w ∷ split_on [] cs) current))
    unfolding walk
    path_loop-slash cs fuel current ptr fname w h short at rest =
        let ends : ends_name (path ptr) ≡ true = ap ends_name at in
        let here = path_loop-end fuel current ptr fname w h short ends in
        elim (Bool-cases (child current w == 0)) [
          | inl missing ↦ here ∙ rw (missing, short) (ap some (sym not_root-zero))
          | inr found ↦ here ∙ rw (found, short, at) rest
        ]

    -- The loop, where the bytes from `ptr` on are `rest` and the name so far is `w`.
    path_loop-walk :
        (rest : List ℕ) (fuel current ptr : ℕ) (fname : Chars) (w : List ℕ)
        → Suffix ptr rest
        → All Nonzero rest
        → Holds fname w
        → length rest < fuel
        → path_loop lib fuel path vfs current ptr fname (length w)
          ≡ some (not_root (walk (split_on w rest) current))
    unfolding split_on
    path_loop-walk rest zero current ptr fname w s nonzero h enough = absurd (omega (arith, enough))
    path_loop-walk [] (suc fuel) current ptr fname w s nonzero h enough =
        elim (Bool-cases (leb 255 (length w))) [
          | inl long ↦ path_loop-too_long [] fuel current ptr fname w long
          | inr short ↦ path_loop-last fuel current ptr fname w h short (Suffix-first ptr [] s)
        ]
    path_loop-walk (c ∷ cs) (suc fuel) current ptr fname w s (ne, nonzero) h enough =
        let at : path ptr ≡ c = Suffix-first ptr (c ∷ cs) s in
        let later = Suffix-next ptr c cs s in
        let fits : length cs < fuel = omega (arith, enough) in
        elim (Bool-cases (leb 255 (length w))) [
          | inl long ↦ path_loop-too_long (c ∷ cs) fuel current ptr fname w long
          | inr short ↦ elim (Bool-cases (c == slash)) [
            | inl ends ↦
                path_loop-slash cs fuel current ptr fname w h short (at ∙ (==_iff c slash).0 ends) (
                  path_loop-walk cs fuel (child current w) (ptr + 1) (λ _. 0) [] later nonzero
                    (Holds-empty (λ _. 0)) fits)
                ∙ ap (λ (p : List (List ℕ)). some (not_root (walk p current)))
                    (sym (split_on-slash w cs c ends))
            | inr goes_on ↦
                let other : ends_name (path ptr) ≡ false = rw (at, goes_on) (ne→== c 0 ne) in
                let one : length w + 1 ≡ length (w ++ c ∷ []) =
                  omega (arith, length-append w (c ∷ [])) in
                path_loop-char fuel current ptr fname (length w) short other
                ∙ rw (at, one)
                    (path_loop-walk cs fuel current (ptr + 1) (update fname (length w) c)
                      (w ++ c ∷ []) later nonzero (Holds-update fname w c h ne) fits)
                ∙ ap (λ (p : List (List ℕ)). some (not_root (walk p current)))
                    (sym (split_on-char w cs c goes_on))
          ]
        ]

  text-Suffix : (c : ℕ) (cs : List ℕ) → Suffix (text (c ∷ cs)) 1 cs
  text-Suffix c cs = record {
    at = λ i. let step : 1 + i ≡ suc i = omega arith in ap (text (c ∷ cs)) step;
  }

  -- For every path without zero bytes and more fuel than it has bytes, whatever the stack holds,
  -- path2vnode returns what the path resolves to: NULL for the empty path, for one that does not
  -- begin with a slash and where a name has 255 bytes or more or is not found, and otherwise the
  -- vnode that is found by splitting the path at its slashes and looking up one name after the
  -- other, with NULL in place of the root.
  pub path2vnode-resolve :
      (path : List ℕ) (fname : Chars) (fuel : ℕ)
      → All Nonzero path
      → length path < fuel
      → path2vnode lib fuel fname (text path) vfs ≡ some (resolve path)
  unfolding path2vnode
  path2vnode-resolve [] fname fuel nonzero enough = refl
  path2vnode-resolve (c ∷ cs) fname fuel (ne, nonzero) enough = elim (Bool-cases (c == slash)) [
    | inl starts ↦ rw starts (
        path_loop-walk (text (c ∷ cs)) cs fuel vfs.fs_root 1 fname [] (text-Suffix c cs) nonzero
          (Holds-empty fname) (omega (arith, enough)))
    | inr other ↦ rw other refl
  ]

-- ===== src/Breadth/Levels.antt =====
-- The walk over a directory tree that stays as it is.
use rewofs.Base.{
  ℕ, zero, suc, ◌+◌, ◌≤◌, ◌≡◌, refl, sym, ap, ◌∙◌, Bool, true, false, List, [], ◌∷◌, ◌++◌, map,
  append-nil, some, length, length-append, length-map, map-append, arith,
}
use rewofs.Base.Result.{ok}
use rewofs.Breadth.{Item, Directories, child_item, with_count, walk, breadth_first_tree}
use rewofs.Breadth.Entries.{
  Entry, Entries, leaf, directory, nil, cons, to_list, path_of, status, entries_of, counted,
  all_children, size, total, total-to_list, total-append, items-status, next,
}

module _ {P K : Type 0} (directories : Directories P K) where
  -- The directories of the tree are read as they are, and stay so.
  abbrev mutual
    pub Holds : Entry P → Type 0
    Holds (leaf p) = Unit
    Holds (directory p es) =
        ((k : K) → directories.directory p k ≡ (ok (map status (to_list es)), k)) × HoldsAll es

    pub HoldsAll : Entries P → Type 0
    HoldsAll nil = Unit
    HoldsAll (cons e es) = Holds e × HoldsAll es

  abbrev AllHold : List (Entry P) → Type 0
  AllHold [] = Unit
  AllHold (e ∷ es) = Holds e × AllHold es

  AllHold-to_list : (es : Entries P) → HoldsAll es → AllHold (to_list es)
  AllHold-to_list nil h = tt
  AllHold-to_list (cons e es) h = (h.0, AllHold-to_list es h.1)

  AllHold-append : (es fs : List (Entry P)) → AllHold es → AllHold fs → AllHold (es ++ fs)
  AllHold-append [] fs h g = g
  AllHold-append (e ∷ es) fs h g = (h.0, AllHold-append es fs h.1 g)

  abbrev item : Entry P → Item P
  item e = child_item (status e)

  walk-directory :
      (n : ℕ) (before : List (Item P)) (p : P) (list : List (Item P)) (cs : List (P × Bool)) (k : K)
      → directories.directory p k ≡ (ok cs, k)
      → walk directories (suc n) before (child_item (p, true) ∷ list) k
        ≡ walk directories n
            (before ++ with_count (child_item (p, true)) (length cs) ∷ [])
            (list ++ map child_item cs)
            k
  unfolding walk
  walk-directory n before p list cs k h = rw h (rw h refl)

  -- One round of the loop at an entry, whose children go to the end of the list.
  walk-entry :
      (n : ℕ) (before : List (Item P)) (e : Entry P) (es : List (Entry P)) (k : K)
      → Holds e
      → walk directories (suc n) before (map item (e ∷ es)) k
        ≡ walk directories n (before ++ counted e ∷ []) (map item (es ++ entries_of e)) k
  unfolding walk
  walk-entry n before (leaf p) es k h =
      ap
        (λ (r : List (Entry P)).
          walk directories n (before ++ child_item (p, false) ∷ []) (map item r) k)
        (sym (append-nil es))
  walk-entry n before (directory p cs) es k h =
      let row : List (P × Bool) = map status (to_list cs) in
      walk-directory n before p (map item es) row k (h.0 k)
      ∙ ap
          (λ (c : ℕ).
            walk directories n (before ++ with_count (child_item (p, true)) c ∷ [])
              (map item es ++ map child_item row) k)
          (length-map status (to_list cs))
      ∙ ap (λ (r : List (Item P)). walk directories n (before ++ counted (directory p cs) ∷ []) r k)
          (ap (λ (r : List (Item P)). map item es ++ r) (items-status (to_list cs))
            ∙ sym (map-append item es (to_list cs)))

  begun :
      (n : ℕ) (p : P) (b : Bool) (k : K)
      → directories.symlink_status p k ≡ (ok b, k)
      → breadth_first_tree directories n p k ≡ walk directories n [] (child_item (p, b) ∷ []) k
  unfolding breadth_first_tree
  begun n p b k h = rw (breadth_first_tree, h) (rw h refl)

  first :
      (root : Entry P) (n : ℕ) (k : K)
      → walk directories n [] (child_item (path_of root, (status root).1) ∷ []) k
        ≡ walk directories n [] (item root ∷ []) k
  first (leaf p) n k = refl
  first (directory p es) n k = refl

  total-entries_of : (e : Entry P) → size e ≡ suc (total (entries_of e))
  total-entries_of (leaf p) = refl
  total-entries_of (directory p es) = omega (arith, total-to_list es)

  AllHold-entries_of : (e : Entry P) → Holds e → AllHold (entries_of e)
  AllHold-entries_of (leaf p) h = tt
  AllHold-entries_of (directory p es) h = AllHold-to_list es h.1

  -- From a list of which the part `seen` is done: the list stays the root and the children of all that is
  -- done, and every entry is done once.
  walk_lem :
      (n : ℕ) (root : Entry P) (seen es : List (Entry P)) (k : K)
      → AllHold es
      → total es ≤ n
      → seen ++ es ≡ root ∷ all_children seen
      → (all : List (Entry P)) × (walk directories n (map counted seen) (map item es) k
          ≡ (some (ok (map counted all)), k))
        × (all ≡ root ∷ all_children all)
        × (length all ≡ length seen + total es)
  unfolding walk
  walk_lem n root seen [] k h d inv = (seen, refl, sym (append-nil seen) ∙ inv, omega arith)
  walk_lem zero root seen (e ∷ es) k h d inv = absurd (omega (arith, total-entries_of e))
  walk_lem (suc n) root seen (e ∷ es) k h d inv =
      let (all, run, closed, count) =
        walk_lem n root (seen ++ e ∷ []) (es ++ entries_of e) k
          (AllHold-append es (entries_of e) h.1 (AllHold-entries_of e h.0))
          (omega (arith, total-append es (entries_of e), total-entries_of e))
          (next root seen e es inv) in
      (
        all,
        walk-entry n (map counted seen) e es k h.0
            ∙ ap (λ (b : List (Item P)). walk directories n b (map item (es ++ entries_of e)) k)
                (sym (map-append counted seen (e ∷ [])))
            ∙ run,
        closed,
        omega (
          arith,
          count,
          total-append es (entries_of e),
          total-entries_of e,
          length-append seen (e ∷ []),
        ),
      )

  -- Of a directory tree that stays as it is, with a round for each entry, the result is a list of all its
  -- entries, each once: the root, and then the children of the first entry of the list, of the second, and
  -- so on, each entry with the number of its children.
  pub breadth_first_tree_lem :
      (root : Entry P) (n : ℕ) (k : K)
      → ((s : K) → directories.symlink_status (path_of root) s ≡ (ok (status root).1, s))
      → Holds root
      → size root ≤ n
      → (all : List (Entry P)) × (breadth_first_tree directories n (path_of root) k
          ≡ (some (ok (map counted all)), k))
        × (all ≡ root ∷ all_children all)
        × (length all ≡ size root)
  unfolding breadth_first_tree
  breadth_first_tree_lem root n k s h d =
      let (all, run, closed, count) = walk_lem n root [] (root ∷ []) k (h, tt) (omega arith) refl in
      (
        all,
        begun n (path_of root) (status root).1 k (s k) ∙ first root n k ∙ run,
        closed,
        omega (arith, count),
      )

-- ===== src/Breadth/Entries.antt =====
-- Finite directory trees, and lists of their entries.
use rewofs.Base.{
  ℕ, suc, ◌+◌, ◌≡◌, refl, sym, ap, ◌∙◌, Bool, true, false, List, [], ◌∷◌, ◌++◌, map, append-nil,
  append_assoc, length, arith,
}
use rewofs.Breadth.{Item, child_item, with_count}

-- A finite directory tree: a path that is no directory, or a directory with its entries.
mutual
  pub data Entry (P : Type 0) : Type 0 where
    leaf : P → Entry P
    directory : P → Entries P → Entry P

  pub data Entries (P : Type 0) : Type 0 where
    nil : Entries P
    cons : Entry P → Entries P → Entries P

module _ {P : Type 0} where
  abbrev pub to_list : Entries P → List (Entry P)
  to_list nil = []
  to_list (cons e es) = e ∷ to_list es

  abbrev pub path_of : Entry P → P
  path_of (leaf p) = p
  path_of (directory p es) = p

  abbrev pub status : Entry P → P × Bool
  status (leaf p) = (p, false)
  status (directory p es) = (p, true)

  abbrev pub entries_of : Entry P → List (Entry P)
  entries_of (leaf p) = []
  entries_of (directory p es) = to_list es

  -- The item of an entry, with the number of its children.
  abbrev pub counted : Entry P → Item P
  counted (leaf p) = child_item (p, false)
  counted (directory p es) = with_count (child_item (p, true)) (length (to_list es))

  -- The children of all, in order.
  abbrev pub all_children : List (Entry P) → List (Entry P)
  all_children [] = []
  all_children (e ∷ es) = entries_of e ++ all_children es

  -- How many entries a tree has.
  abbrev mutual
    pub size : Entry P → ℕ
    size (leaf p) = 1
    size (directory p es) = suc (size_all es)

    size_all : Entries P → ℕ
    size_all nil = 0
    size_all (cons e es) = size e + size_all es

  abbrev pub total : List (Entry P) → ℕ
  total [] = 0
  total (e ∷ es) = size e + total es

  pub total-to_list : (es : Entries P) → total (to_list es) ≡ size_all es
  total-to_list nil = refl
  total-to_list (cons e es) = omega (arith, total-to_list es)

  pub total-append : (es fs : List (Entry P)) → total (es ++ fs) ≡ total es + total fs
  total-append [] fs = omega arith
  total-append (e ∷ es) fs = omega (arith, total-append es fs)

  all_children-append :
      (es fs : List (Entry P)) → all_children (es ++ fs) ≡ all_children es ++ all_children fs
  all_children-append [] fs = refl
  all_children-append (e ∷ es) fs =
      ap (λ (r : List (Entry P)). entries_of e ++ r) (all_children-append es fs)
      ∙ sym (append_assoc (entries_of e) (all_children es) (all_children fs))

  pub items-status :
      (es : List (Entry P))
      → map child_item (map status es) ≡ map (λ (e : Entry P). child_item (status e)) es
  items-status [] = refl
  items-status (e ∷ es) = ap (λ (r : List (Item P)). child_item (status e) ∷ r) (items-status es)

pub next :
    {P : Type 0} (root : Entry P) (seen : List (Entry P)) (e : Entry P) (es : List (Entry P))
    → seen ++ e ∷ es ≡ root ∷ all_children seen
    → (seen ++ e ∷ []) ++ (es ++ entries_of e) ≡ root ∷ all_children (seen ++ e ∷ [])
next {P = P} root seen e es inv =
    append_assoc seen (e ∷ []) (es ++ entries_of e)
    ∙ sym (append_assoc seen (e ∷ es) (entries_of e))
    ∙ ap (λ (r : List (Entry P)). r ++ entries_of e) inv
    ∙ ap (λ (r : List (Entry P)). root ∷ r)
        (ap (λ (r : List (Entry P)). all_children seen ++ r) (sym (append-nil (entries_of e)))
          ∙ sym (all_children-append seen (e ∷ [])))

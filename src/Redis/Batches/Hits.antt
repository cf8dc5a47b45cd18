-- ===== src/Redis/Batches/Hits.antt =====
-- redis/directory.go: the placements that FindByNode finds in an index, in the index's order.
use stable_placement.Base.{
  ◌≡◌, refl, sym, ap, ◌∙◌, ℕ, zero, suc, ◌+◌, ◌-◌, ◌≤◌, ◌<◌, leb, Option, none, some, List, [], ◌∷◌,
  ◌++◌, Text, length, take, get_elem?, arith, if◌then◌else◌,
}
use stable_placement.Model.{Placement, PlacementStatus}
use stable_placement.Directory.Paging.{PlacementPage, has_status}
use stable_placement.Redis.Pages.{Hit}
use stable_placement.Redis.Batches.{in_order, placements_of, cursor_of}

abbrev pub kept : PlacementStatus → Option Placement → Option Placement
kept s none = none
kept s (some p) = if has_status s p then some p else none

-- The hits of an index, where `find` gives what is stored under a key.
unfoldable pub hits_of : (Text → Option Placement) → PlacementStatus → List (ℕ × Text) → List Hit
hits_of find s [] = []
hits_of find s ((t, k) ∷ es) = elim (kept s (find k)) [
  | none ↦ hits_of find s es
  | some p ↦ record { placement = p; score = t; key = k } ∷ hits_of find s es
]

-- The page of so many hits.
unfoldable pub page_for : ℕ → List Hit → PlacementPage
page_for limit hs =
    if leb (length hs) limit
    then record { placements = placements_of hs; next_cursor = [] }
    else record {
      placements = placements_of (take limit hs);
      next_cursor = cursor_of (get_elem? hs (limit - 1));
    }

abbrev pub Below : Option ℕ → ℕ → Type 0
Below none b = Unit
Below (some p) b = p < b

pub append-nil : (xs : List Hit) → xs ++ [] ≡ xs
append-nil [] = refl
append-nil (x ∷ xs) = ap (◌∷◌ x) (append-nil xs)

append_assoc : (xs ys zs : List Hit) → (xs ++ ys) ++ zs ≡ xs ++ (ys ++ zs)
append_assoc [] ys zs = refl
append_assoc (x ∷ xs) ys zs = ap (◌∷◌ x) (append_assoc xs ys zs)

pub in_order-append : (hs acc : List Hit) → in_order hs acc ≡ in_order hs [] ++ acc
unfolding in_order
in_order-append [] acc = refl
in_order-append (h ∷ hs) acc =
    in_order-append hs (h ∷ acc)
    ∙ (sym (append_assoc (in_order hs []) (h ∷ []) acc)
        ∙ ap (λ xs. xs ++ acc) (sym (in_order-append hs (h ∷ []))))

pub length-in_order : (hs acc : List Hit) → length (in_order hs acc) ≡ length hs + length acc
unfolding in_order
length-in_order [] acc = omega arith
length-in_order (h ∷ hs) acc = omega (arith, length-in_order hs (h ∷ acc))

-- One hit more, at the end.
pub in_order-hit :
    (h : Hit) (acc rest : List Hit) → in_order acc [] ++ h ∷ rest ≡ in_order (h ∷ acc) [] ++ rest
unfolding in_order
in_order-hit h acc rest =
    sym (append_assoc (in_order acc []) (h ∷ []) rest)
    ∙ ap (λ xs. xs ++ rest) (sym (in_order-append acc (h ∷ [])))

pub take-append : (n : ℕ) (xs ys : List Hit) → n ≤ length xs → take n (xs ++ ys) ≡ take n xs
take-append zero xs ys le = refl
take-append (suc n) [] ys le = absurd (omega arith)
take-append (suc n) (x ∷ xs) ys le = ap (◌∷◌ x) (take-append n xs ys (omega arith))

pub get_elem?-append :
    (n : ℕ) (xs ys : List Hit) → n < length xs → get_elem? (xs ++ ys) n ≡ get_elem? xs n
get_elem?-append n [] ys le = absurd (omega arith)
get_elem?-append zero (x ∷ xs) ys le = refl
get_elem?-append (suc n) (x ∷ xs) ys le = get_elem?-append n xs ys (omega arith)

module _ (find : Text → Option Placement) (s : PlacementStatus) where
  pub hits_of-none :
      (t : ℕ) (k : Text) (es : List (ℕ × Text))
      → kept s (find k) ≡ none
      → hits_of find s ((t, k) ∷ es) ≡ hits_of find s es
  unfolding hits_of
  hits_of-none t k es e = ground arith

  pub hits_of-some :
      (t : ℕ) (k : Text) (es : List (ℕ × Text)) (p : Placement)
      → kept s (find k) ≡ some p
      → hits_of find s ((t, k) ∷ es)
        ≡ record { placement = p; score = t; key = k } ∷ hits_of find s es
  unfolding hits_of
  hits_of-some t k es p e = ground arith

-- ===== src/Redis/Batches/Joined.antt =====
-- redis/directory.go: batches of an index in FindByNode, one after the other.
use stable_placement.Base.{
  ◌≡◌, refl, ◌∙◌, ◌⊎◌, inl, inr, ℕ, ◌≤◌, ltb, ℤ, true, false, Option, none, some, List, [], ◌∷◌,
  ◌++◌, Text, length, same_refl, arith,
}
use stable_placement.Model.{Result, ok, err, Error, PlacementStatus}
use stable_placement.Directory.Paging.{PlacementPage}
use stable_placement.Redis.Scripts.{RedisPlacement, ScoredMember}
use stable_placement.Redis.Pages.{
  max_placement_index_score, Scan, Step, scanned, full, broken, entry_of, first_entry, at_place,
  then_scan, scan_member, scan_batch,
}
use stable_placement.Redis.Batches.{full_page, last_page, last_place, next_batch}
use stable_placement.Redis.Batches.Index.{stored}

-- What a scan that is over answers.
abbrev pub outcome : ℕ → Step → Result PlacementPage
outcome limit (broken e) = err e
outcome limit (full scan) = ok (full_page limit scan.hits)
outcome limit (scanned scan) = ok (last_page scan.hits)

pub entry_of-stored :
    (s : ℕ) (k : Text)
    → s ≤ max_placement_index_score
    → entry_of (record { member = some k; score = some (ℤ.pos s) }) ≡ ok (s, k)
unfolding entry_of
entry_of-stored s k h = ground arith

pub Result-cases {ℓ} :
    {A : Type ℓ} (r : Result A) → ((e : Error) × (r ≡ err e)) ⊎ ((a : A) × (r ≡ ok a))
Result-cases (err e) = inl (e, refl)
Result-cases (ok a) = inr (a, refl)

pub last_place-stored :
    (xs : List (ℕ × Text)) (s : ℕ) (k : Text) (place : Option (ℕ × Text))
    → s ≤ max_placement_index_score
    → last_place place (stored (xs ++ (s, k) ∷ [])) ≡ some (s, k)
unfolding last_place stored
last_place-stored [] s k place h = ground (arith, entry_of-stored s k h)
last_place-stored ((t, l) ∷ xs) s k place h =
    elim (Result-cases (entry_of (record { member = some l; score = some (ℤ.pos t) }))) [
      | inl (e, q) ↦ ground (arith, last_place-stored xs s k place h)
      | inr (next, q) ↦ ground (arith, last_place-stored xs s k (some next) h)
    ]

module _ (decode : Text → Result RedisPlacement) (get : Text → Result (Option Text)) where
  then_scan_assoc :
      (step : Step) (f g : Scan → Step)
      → then_scan decode get step (λ scan. then_scan decode get (f scan) g)
        ≡ then_scan decode get (then_scan decode get step f) g
  then_scan_assoc (scanned scan) f g = refl
  then_scan_assoc (full scan) f g = refl
  then_scan_assoc (broken e) f g = refl

  then_scan-ap :
      (step : Step) (f g : Scan → Step)
      → ((scan : Scan) → f scan ≡ g scan)
      → then_scan decode get step f ≡ then_scan decode get step g
  then_scan-ap (scanned scan) f g h = h scan
  then_scan-ap (full scan) f g h = refl
  then_scan-ap (broken e) f g h = refl

  -- A batch that is as long as asked for leads to the next one.
  pub next_batch-more :
      (limit size : ℕ) (place : Option (ℕ × Text)) (ms : List ScoredMember) (step : Step)
      (loop : Option (ℕ × Text) → Scan → Option (Result PlacementPage)) (rest : Scan → Step)
      → ltb (length ms) size ≡ false
      → ((scan : Scan) → loop (last_place place ms) scan ≡ some (outcome limit (rest scan)))
      → next_batch limit size place ms step loop
        ≡ some (outcome limit (then_scan decode get step rest))
  next_batch-more limit size place ms (scanned scan) loop rest e h = ground (arith, h scan)
  next_batch-more limit size place ms (full scan) loop rest e h = refl
  next_batch-more limit size place ms (broken x) loop rest e h = refl

  -- A shorter one is the last.
  pub next_batch-done :
      (limit size : ℕ) (place : Option (ℕ × Text)) (ms : List ScoredMember) (step : Step)
      (loop : Option (ℕ × Text) → Scan → Option (Result PlacementPage))
      → ltb (length ms) size ≡ true
      → next_batch limit size place ms step loop ≡ some (outcome limit step)
  next_batch-done limit size place ms (scanned scan) loop e = ground arith
  next_batch-done limit size place ms (full scan) loop e = refl
  next_batch-done limit size place ms (broken x) loop e = refl

  module _ (limit : ℕ) (s : PlacementStatus) where
    abbrev pub scan_stored : Option (ℕ × Text) → List (ℕ × Text) → Scan → Step
    scan_stored place es scan = scan_batch decode get limit s place (stored es) scan

    pub scan_stored-append :
        (place : Option (ℕ × Text)) (xs : List (ℕ × Text)) (e : ℕ × Text) (ys : List (ℕ × Text))
        (scan : Scan)
        → scan_stored place (xs ++ e ∷ ys) scan
          ≡ then_scan decode get (scan_stored place (xs ++ e ∷ []) scan) (scan_stored none ys)
    unfolding scan_batch stored
    scan_stored-append place [] (t, k) ys scan =
        then_scan_assoc
          (scan_member decode get limit s place scan
            (entry_of (record { member = some k; score = some (ℤ.pos t) })))
          scanned (scan_stored none ys)
    scan_stored-append place ((r, l) ∷ xs) (t, k) ys scan =
        let step =
          scan_member decode get limit s place scan
            (entry_of (record { member = some l; score = some (ℤ.pos r) })) in
        then_scan-ap step (scan_stored none (xs ++ (t, k) ∷ ys))
          (λ scan'.
            then_scan decode get (scan_stored none (xs ++ (t, k) ∷ []) scan') (scan_stored none ys))
          (scan_stored-append none xs (t, k) ys)
        ∙ then_scan_assoc step (scan_stored none (xs ++ (t, k) ∷ [])) (scan_stored none ys)

    first_entry-at : (t : ℕ) (k : Text) → first_entry (some (t, k)) t k ≡ at_place
    unfolding first_entry
    first_entry-at t k = ground (arith, same_refl k)

    -- The entry that a batch starts at is passed over.
    pub scan_stored-at :
        (t : ℕ) (k : Text) (ys : List (ℕ × Text)) (scan : Scan)
        → t ≤ max_placement_index_score
        → scan_stored (some (t, k)) ((t, k) ∷ ys) scan ≡ scan_stored none ys scan
    unfolding scan_batch stored
    scan_stored-at t k ys scan h = ground (arith, entry_of-stored t k h, first_entry-at t k)

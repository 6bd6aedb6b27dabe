-- ===== src/State/Operations/Walk.antt =====
-- A client that follows the cursor of each page to the end of the listing.
use apm_projectrunner.Base.{
  ℕ, String, zero, suc, ◌≡◌, refl, sym, ap, ◌∙◌, List, [], ◌∷◌, ◌++◌, Option, none, some, length,
  take, last?, arith, filter, Bool, true, ◌&&◌, leb, nat_beq, false, ◌≤◌, ◌<◌, i64_max,
}
use apm_projectrunner.State.Error.{Result, ok, ◌>>=◌, no_faults}
use apm_projectrunner.State.Operations.{StoredOperation, OperationQuery, Table, operations, selects}
use apm_projectrunner.State.Operations.History.{Call, run}
use apm_projectrunner.State.Operations.Paging.{listing, operations-page}

abbrev followed : Table → Option StoredOperation → (StoredOperation → Result Table) → Result Table
followed page none next = ok []
followed page (some r) next = next r >>= λ rest. ok (page ++ rest)

unfoldable pub walk : ℕ → Table → OperationQuery → Result Table
walk zero table q = ok []
walk (suc n) table q = do
  page ← operations no_faults table q
  followed page (last? page) (λ r. walk n table (record q { cursor = some r.id }))

-- The parts of a page that is not empty.
record Parts (n : ℕ) (ys : Table) : Type 0 where
  earlier : Table
  final : StoredOperation
  later : Table
  page : take n ys ≡ earlier ++ final ∷ []
  all_rows : ys ≡ earlier ++ final ∷ later
  less : length later < length ys

parts : (n : ℕ) (y : StoredOperation) (ys : Table) → Parts (suc n) (y ∷ ys)
unfolding take
parts n y [] = record {
  earlier = [];
  final = y;
  later = [];
  page = refl;
  all_rows = refl;
  less = omega arith;
}
parts zero y (z ∷ zs) = record {
  earlier = [];
  final = y;
  later = z ∷ zs;
  page = refl;
  all_rows = refl;
  less = omega arith;
}
parts (suc n) y (z ∷ zs) =
    let p = parts n z zs in
    record {
      earlier = y ∷ p.earlier;
      final = p.final;
      later = p.later;
      page = ap (λ rows. y ∷ rows) p.page;
      all_rows = ap (λ rows. y ∷ rows) p.all_rows;
      less = let l = p.less in omega arith;
    }

last_end : (xs : Table) (r : StoredOperation) → last? (xs ++ r ∷ []) ≡ some r
last_end [] r = refl
last_end (x ∷ []) r = refl
last_end (x ∷ y ∷ xs) r = last_end (y ∷ xs) r

append_assoc : (xs ys zs : Table) → (xs ++ ys) ++ zs ≡ xs ++ (ys ++ zs)
append_assoc [] ys zs = refl
append_assoc (x ∷ xs) ys zs = ap (λ ws. x ∷ ws) (append_assoc xs ys zs)

split_page : (n : ℕ) → 0 < n → (y : StoredOperation) (ys : Table) → Parts n (y ∷ ys)
split_page zero positive y ys = absurd (omega arith)
split_page (suc n) positive y ys = parts n y ys

filter-true :
    (p : StoredOperation → Bool) (rows : Table) → filter (λ row. p row && true) rows ≡ filter p rows
filter-true p [] = refl
filter-true p (row ∷ rows) = ground (arith, filter-true p rows)

first_page :
    (table : Table) (q : OperationQuery)
    → q.cursor ≡ none
    → 0 < q.limit
    → q.limit ≤ i64_max
    → operations no_faults table q ≡ ok (take q.limit (listing q table))
unfolding operations
first_page table q start positive small =
    let in_range : leb q.limit i64_max ≡ true = ground arith in
    let some_limit : nat_beq q.limit 0 ≡ false = ground arith in
    rw (some_limit, in_range, start, filter-true (selects q) table) refl

module _ (violation : String) (cs : List Call) where
  walk_rows :
      (fuel : ℕ) (q : OperationQuery) (xs rows : Table)
      → operations no_faults (run violation [] cs) q ≡ ok (take q.limit rows)
      → listing q (run violation [] cs) ≡ xs ++ rows
      → 0 < q.limit
      → q.limit ≤ i64_max
      → length rows < fuel
      → walk fuel (run violation [] cs) q ≡ ok rows
  unfolding walk take
  walk_rows zero q xs rows page e positive small enough = absurd (omega arith)
  walk_rows (suc fuel) q xs [] page e positive small enough = rw page refl
  walk_rows (suc fuel) q xs (y ∷ ys) page e positive small enough =
      let p = split_page q.limit positive y ys in
      let q' : OperationQuery = record q { cursor = some p.final.id } in
      let here : operations no_faults (run violation [] cs) q ≡ ok (p.earlier ++ p.final ∷ []) =
        page ∙ ap ok p.page in
      let place : listing q (run violation [] cs) ≡ (xs ++ p.earlier) ++ p.final ∷ p.later =
        e
        ∙ ap (λ rows. xs ++ rows) p.all_rows
        ∙ sym (append_assoc xs p.earlier (p.final ∷ p.later)) in
      let next : operations no_faults (run violation [] cs) q' ≡ ok (take q.limit p.later) =
        operations-page violation cs q' (xs ++ p.earlier) p.final p.later place refl positive
          small in
      let rest : walk fuel (run violation [] cs) q' ≡ ok p.later =
        walk_rows fuel q' ((xs ++ p.earlier) ++ p.final ∷ []) p.later next
          (place ∙ sym (append_assoc (xs ++ p.earlier) (p.final ∷ []) p.later)) positive small
          (let l = p.less in omega arith) in
      rw (here, last_end p.earlier p.final, rest)
        (ap ok (append_assoc p.earlier (p.final ∷ []) p.later ∙ sym p.all_rows))

-- Paging is complete. After any calls on an empty table, a client that asks for pages, each with the
-- last row of the page before as its cursor, until a page is empty, receives every row of the
-- listing once and in its order; the limit is positive and within SQLite's range, the database does
-- not fail, and more calls than the listing has rows are enough.
pub walk-listing :
    (violation : String) (cs : List Call) (fuel : ℕ) (q : OperationQuery)
    → q.cursor ≡ none
    → 0 < q.limit
    → q.limit ≤ i64_max
    → length (listing q (run violation [] cs)) < fuel
    → walk fuel (run violation [] cs) q ≡ ok (listing q (run violation [] cs))
walk-listing violation cs fuel q start positive small enough =
    walk_rows violation cs fuel q [] (listing q (run violation [] cs))
      (first_page (run violation [] cs) q start positive small) refl positive small enough

-- ===== src/State/Operations/Paging.antt =====
-- Pages of the listing, newest first.
use apm_projectrunner.Base.{
  ◌≡◌, ◌⊎◌, refl, sym, ap, subst, ◌∙◌, String, Bool, true, false, ◌&&◌, List, [], ◌∷◌, ◌++◌, some,
  find, filter, Distinct, All-map, Member, arith, ◌==◌, string_eq, int_eq, ◌≤◌, ◌<◌, i64_max,
  nat_beq, leb, take, sort, Sorted, Apart, Apart-filter, All-Member, All-filter, All-self,
  sort-Sorted, sort-filter, sort-Member, filter-after, text_lt_irrefl, text_lt_trans, text_lt_total,
}
use apm_projectrunner.State.Error.{ok, no_faults}
use apm_projectrunner.State.Operations.{
  StoredOperation, OperationQuery, Table, id_of, selects, precedes, operations,
}
use apm_projectrunner.State.Operations.History.{Call, run, run-Distinct}

precedes_irrefl : (a : StoredOperation) → precedes a a ≡ false
unfolding precedes
precedes_irrefl a = ground (arith, text_lt_irrefl a.id)

precedes_trans :
    (a b c : StoredOperation) → precedes a b ≡ true → precedes b c ≡ true → precedes a c ≡ true
unfolding precedes
precedes_trans a b c h k = ground (
  arith,
  text_lt_trans c.id b.id a.id,
  int_eq.beq_correct b.started_at a.started_at,
  int_eq.beq_correct c.started_at b.started_at,
  int_eq.beq_correct c.started_at a.started_at,
)

precedes_apart :
    (a b : StoredOperation) → (a.id == b.id) ≡ false → (precedes a b ≡ true) ⊎ (precedes b a ≡ true)
unfolding precedes
precedes_apart a b ne = ground (
  arith,
  text_lt_total a.id b.id,
  string_eq.beq_correct a.id b.id,
  int_eq.beq_correct b.started_at a.started_at,
  int_eq.beq_correct a.started_at b.started_at,
)

Distinct-Apart : (rows : Table) → Distinct id_of rows → Apart precedes rows
Distinct-Apart [] d = tt
Distinct-Apart (row ∷ rows) (p, d) =
    (All-map (λ r e. precedes_apart row r e) rows p, Distinct-Apart rows d)

-- The rows that a query selects, in its order.
abbrev pub listing : OperationQuery → Table → Table
listing q table = sort precedes (filter (selects q) table)

filter-and {ℓ} :
    {A : Type ℓ} (p q : A → Bool) (xs : List A)
    → filter (λ x. p x && q x) xs ≡ filter q (filter p xs)
filter-and p q [] = refl
filter-and p q (x ∷ xs) = ground (arith, filter-and p q xs)

filter-Member {ℓ} :
    {A : Type ℓ} {a : A} (p : A → Bool) (xs : List A) → Member a (filter p xs) → Member a xs
filter-Member p xs m =
    All-Member (λ y. Member y xs) m (All-filter (λ y. Member y xs) p xs (All-self xs))

Member-middle {ℓ} : {A : Type ℓ} (xs : List A) (a : A) (ys : List A) → Member a (xs ++ a ∷ ys)
Member-middle [] a ys = Member.here
Member-middle (x ∷ xs) a ys = Member.there (Member-middle xs a ys)

find-Member :
    (r : StoredOperation) (rows : Table)
    → Distinct id_of rows
    → Member r rows
    → find id_of r.id rows ≡ some r
find-Member r [] d m = elim m [ ]
find-Member r (row ∷ rows) (p, d) Member.here = ground (arith, string_eq.beq_correct r.id r.id)
find-Member r (row ∷ rows) (p, d) (Member.there m) =
    ground (arith, find-Member r rows d m, All-Member (λ y. (row.id == y.id) ≡ false) m p)

after_row :
    (q : OperationQuery) (table : Table) (xs : Table) (r : StoredOperation) (ys : Table)
    → Distinct id_of table
    → listing q table ≡ xs ++ r ∷ ys
    → sort precedes (filter (λ row. selects q row && precedes r row) table) ≡ ys
after_row q table xs r ys d e =
    let apart = Apart-filter precedes (selects q) table (Distinct-Apart table d) in
    let sorted : Sorted precedes (xs ++ r ∷ ys) =
      subst (Sorted precedes) e
        (sort-Sorted precedes precedes_trans (filter (selects q) table) apart) in
    ap (sort precedes) (filter-and (selects q) (precedes r) table)
    ∙ sort-filter precedes precedes_trans (precedes r) (filter (selects q) table) apart
    ∙ ap (filter (precedes r)) e
    ∙ filter-after precedes precedes_trans precedes_irrefl xs r ys sorted

-- Paging loses nothing and repeats nothing. After any calls on an empty table, a query whose cursor
-- is a row of its listing (the rows its filters select, newest first, equal start times by
-- descending identifier) returns the rows that follow this row in the listing, up to the limit;
-- the limit is positive and within SQLite's range, and the database does not fail.
pub operations-page :
    (violation : String) (cs : List Call) (q : OperationQuery) (xs : Table) (r : StoredOperation)
    (ys : Table)
    → listing q (run violation [] cs) ≡ xs ++ r ∷ ys
    → q.cursor ≡ some r.id
    → 0 < q.limit
    → q.limit ≤ i64_max
    → operations no_faults (run violation [] cs) q ≡ ok (take q.limit ys)
unfolding operations
operations-page violation cs q xs r ys e at positive small =
    let d = run-Distinct violation [] cs tt in
    let member : Member r (run violation [] cs) = filter-Member (selects q) (run violation [] cs) (
      sort-Member precedes r (filter (selects q) (run violation [] cs))
        (subst (λ rows. Member r rows) (sym e) (Member-middle xs r ys))) in
    let found = find-Member r (run violation [] cs) d member in
    let rows = after_row q (run violation [] cs) xs r ys d e in
    let in_range : leb q.limit i64_max ≡ true = ground arith in
    let some_limit : nat_beq q.limit 0 ≡ false = ground arith in
    rw (some_limit, in_range, at, found, rows) refl

-- ===== src/Main/Steps.antt =====
-- main.go: the steps of a command on the store.
use sund.Prelude.{
  ◌⊎◌, inl, inr, ◌≡◌, refl, sym, ap, ◌∙◌, some, String, ◌==◌, eq_refl, arith, if◌then◌else◌,
  Option-cases,
}
use sund.Store.Shapes.{result_cases}
use sund.Store.Tables.{Db, Result, ok}
use sund.Main.Types.{Machine, Answer, Failure, failed, run_store, done}

pub step_cases :
    {A : Type 0} (r : Answer A × Machine)
    → ((x : Failure) × (r ≡ (failed x, r.1))) ⊎ ((a : A) × (r ≡ (done a, r.1)))
step_cases (done a, m) = inr (a, refl)
step_cases (failed x, m) = inl (x, refl)

-- A method of the store that succeeds: the database before and after.
pub run_store-parts :
    {A : Type 0} (path : String) (f : Db → Result (A × Db)) (s s' : Machine) (a : A)
    → run_store path f s ≡ (done a, s')
    → (db : Db) × (db' : Db) × (s.databases path ≡ some db)
      × (f db ≡ ok (a, db'))
      × (s'.databases path ≡ some db')
run_store-parts path f s s' a e = elim (Option-cases (s.databases path)) [
  | inl p ↦ absurd (ground arith)
  | inr (db, p) ↦ elim (result_cases (f db)) [
    | inl (x, q) ↦ absurd (ground arith)
    | inr ((b, db'), q) ↦
        let after : Machine = record s {
          databases = λ p. if p == path then some db' else s.databases p;
        } in
        let made : run_store path f s ≡ (done b, after) = ground (arith, p, q) in
        let same : b ≡ a = ground (arith, made, e) in
        (
          db,
          db',
          p,
          q ∙ ap (λ c. ok (c, db')) same,
          ap (λ r. r.1.databases path) (sym e ∙ made) ∙ ground (arith, eq_refl path),
        )
  ]
]

pub run_store-pings :
    {A : Type 0} (path : String) (f : Db → Result (A × Db)) (s s' : Machine) (a : A)
    → run_store path f s ≡ (done a, s')
    → s'.pings ≡ s.pings
run_store-pings path f s s' a e = elim (Option-cases (s.databases path)) [
  | inl p ↦ absurd (ground arith)
  | inr (db, p) ↦ elim (result_cases (f db)) [
    | inl (x, q) ↦ absurd (ground arith)
    | inr ((b, db'), q) ↦
        let after : Machine = record s {
          databases = λ p. if p == path then some db' else s.databases p;
        } in
        let made : run_store path f s ≡ (done b, after) = ground (arith, p, q) in
        ap (λ r. r.1.pings) (sym e ∙ made)
  ]
]

-- ===== src/Main/Wakes.antt =====
-- main.go: whom an act of the operator wakes.
use sund.Prelude.{
  arith, ◌≡◌, refl, sym, ap, ◌∙◌, inl, inr, Bool, not, ◌||◌, List, [], ◌∷◌, ◌++◌, map, String, ◌==◌,
  if◌then◌else◌, Bool-cases, Option-cases, some,
}
use mathlib.Core.List.{append-nil, append_assoc}
use sund.Sql.{select}
use sund.Store.Tables.{Db, ok, Device}
use sund.Server.Types.{Priority, normal}
use sund.Push.{ping}
use sund.Main.Types.{promoted, Environment, Machine, done, Flags, run_store}
use sund.Main.Admin.{
  ping_device, ping_all, ping_account, run_admin_device_promote, db_path, first_arg,
}
use sund.Main.Steps.{run_store-parts, run_store-pings, step_cases}
use sund.Store.Shapes.{result_cases}
use sund.Store.Devices.{get_device, list_devices}
use sund.Store.Roles.{promote_device}

-- The devices that a ping of an account goes to, but for one.
abbrev pub is_woken : String → Device → Bool
is_woken except_id d = not (d.id == except_id || d.revoked || d.push_endpoint == "")

abbrev pub wake_of : Device → String × Priority
wake_of d = (d.push_endpoint, normal)

module _ {Key : Type 0} (env : Environment Key) where
  ping_device-pings :
      (d : Device) (s : Machine)
      → ((ping_device env d s).1.pings ≡ s.pings ++ wake_of d ∷ [])
        × ((ping_device env d s).1.databases ≡ s.databases)
  unfolding ping_device
  ping_device-pings d s = elim (Option-cases (ping env.poster d.push_endpoint normal)) [
    | inl e ↦ rw (ping_device, e) (refl, refl)
    | inr (x, e) ↦ rw (ping_device, e) (refl, refl)
  ]

  ping_all-pings :
      (except_id : String) (ds : List Device) (s : Machine)
      → ((ping_all env except_id ds s).1.pings
          ≡ s.pings ++ map wake_of (select (is_woken except_id) ds))
        × ((ping_all env except_id ds s).1.databases ≡ s.databases)
        × ((ping_all env except_id ds s).0 ≡ done tt)
  unfolding ping_all select
  ping_all-pings except_id [] s = (sym (append-nil s.pings), refl, refl)
  ping_all-pings except_id (d ∷ ds) s =
      elim (Bool-cases (d.id == except_id || d.revoked || d.push_endpoint == "")) [
        | inl e ↦
            let (p, q, r) = ping_all-pings except_id ds s in
            let same =
              ap (ping_all env except_id ds)
                (ap (λ b. if b then s else (ping_device env d s).1) e) in
            (
              ap (λ m. m.1.pings) same
                  ∙ p
                  ∙ ap
                      (λ b.
                        s.pings
                        ++ map wake_of (
                            if not b
                            then d ∷ select (is_woken except_id) ds
                            else select (is_woken except_id) ds))
                      (sym e),
              ap (λ m. m.1.databases) same ∙ q,
              ap (λ m. m.0) same ∙ r,
            )
        | inr e ↦
            let s' = (ping_device env d s).1 in
            let (p, q, r) = ping_all-pings except_id ds s' in
            let (p', q') = ping_device-pings d s in
            let same = ap (ping_all env except_id ds) (ap (λ b. if b then s else s') e) in
            (
              ap (λ m. m.1.pings) same
                  ∙ p
                  ∙ ap (λ l. l ++ map wake_of (select (is_woken except_id) ds)) p'
                  ∙ append_assoc s.pings (wake_of d ∷ []) _
                  ∙ ap
                      (λ b.
                        s.pings
                        ++ map wake_of (
                            if not b
                            then d ∷ select (is_woken except_id) ds
                            else select (is_woken except_id) ds))
                      (sym e),
              ap (λ m. m.1.databases) same ∙ q ∙ q',
              ap (λ m. m.0) same ∙ r,
            )
      ]

  -- No promotion is silent: when `sund admin device promote` succeeds, the device has been promoted
  -- in the database, and a ping was tried for every device of its account that is not revoked and
  -- has a push endpoint, and for no other.
  pub promote-wakes :
      (args : List String) (flags : Flags) (id : String) (m m' : Machine)
      → env.parse args ≡ some flags
      → first_arg env flags ≡ some id
      → run_admin_device_promote env args m ≡ (done tt, m')
      → (db : Db) × (dev : Device) × (db' : Db) × (m.databases (db_path env flags) ≡ some db)
        × (get_device db id ≡ ok dev)
        × (promote_device id db ≡ ok (tt, db'))
        × (m'.databases (db_path env flags) ≡ some db')
        × (m'.pings
            ≡ m.pings ++ map wake_of (select (is_woken "") (list_devices db' dev.account_id)))
  unfolding run_admin_device_promote ping_account
  promote-wakes args flags id m m' e a f =
      let path = db_path env flags in
      elim (Option-cases (m.databases path)) [
        | inl p ↦ absurd (ground arith)
        | inr (db, p) ↦ elim (result_cases (get_device db id)) [
          | inl (x, g) ↦ absurd (ground arith)
          | inr (dev, g) ↦ elim (step_cases (run_store path (promote_device id) m)) [
            | inl (x, q) ↦ absurd (ground arith)
            | inr (u, q) ↦
                let m₁ = (run_store path (promote_device id) m).1 in
                let (db₀, db', p₀, p₁, p₂) = run_store-parts path (promote_device id) m m₁ u q in
                let same : db₀ ≡ db = ground (arith, p, p₀) in
                let (wakes, kept, ends) = ping_all-pings "" (list_devices db' dev.account_id) m₁ in
                let m₂ = (ping_all env "" (list_devices db' dev.account_id) m₁).1 in
                let finish : m' ≡ record m₂ { output = m₂.output ++ promoted id ∷ [] } =
                  ground (arith, p₂, ends) in
                (
                  db,
                  dev,
                  db',
                  p,
                  g,
                  ap (promote_device id) (sym same) ∙ p₁,
                  ap (λ r. r.databases path) finish ∙ ap (λ r. r path) kept ∙ p₂,
                  ap (λ r. r.pings) finish
                      ∙ wakes
                      ∙ ap
                          (λ l.
                            l
                            ++ map wake_of (select (is_woken "") (list_devices db' dev.account_id)))
                          (run_store-pings path (promote_device id) m m₁ u q),
                )
          ]
        ]
      ]

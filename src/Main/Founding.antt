-- ===== src/Main/Founding.antt =====
-- main.go: the devices that enroll by the invitation of a new account.
use sund.Prelude.{
  ℕ, inl, inr, ◌≡◌, refl, sym, ap, ◌∙◌, Bool, true, false, some, ℤ, pos, ◌*◌, List, [], ◌∷◌, ◌++◌,
  String, ◌==◌, eq_iff, Bytes, arith, if◌then◌else◌,
}
use sund.Sql.{find_row, update, has_row}
use sund.Store.Tables.{
  Db, Device, Account, Invitation, second, admin_mode_flat, ok, new_id, format, role_admin,
}
use sund.Store.Accounts.{create_account}
use sund.Store.Invitations.{create_invitation, granted_role, hash_token}
use sund.Store.Devices.{register_device, registered_role, insert_device, enroll, consume, is_usable}
use sund.Main.Types.{Environment, Run, Machine, Flags, run_store, or_default, done}
use sund.Main.Steps.{step_cases, run_store-parts}
use sund.Main.Admin.{run_admin_account_create, db_path}

module _ {A : Type 0} (p : A → Bool) (q : A → Bool) (f : A → A) where
  -- A lookup of a row that is the first of its kind at the end of the table, after an update.
  find-update_last :
      (xs : List A) (x : A)
      → ((r : A) → p (f r) ≡ p r)
      → has_row p xs ≡ false
      → p x ≡ true
      → find_row p (update q f (xs ++ x ∷ [])) ≡ some (if q x then f x else x)
  unfolding find_row update has_row
  find-update_last [] x h n e = ground (arith, h x)
  find-update_last (y ∷ xs) x h n e = ground (arith, h y, find-update_last xs x h)

module _ (sha256 : Bytes → Bytes) where
  -- What CreateInvitation stores when it grants the admin's role.
  admin_row :
      (db db' : Db) (i : Invitation) (account_id token : String) (ttl : ℤ) (random : Bytes)
      (now : ℕ)
      → create_invitation sha256 account_id ttl role_admin token random now db ≡ ok (i, db')
      → (i.grants_role ≡ role_admin)
        × (i.account_id ≡ account_id)
        × (i.token_hash ≡ hash_token sha256 token)
        × (has_row (λ j. j.token_hash == hash_token sha256 token) db.invitations ≡ false)
        × (db'.invitations ≡ db.invitations ++ i ∷ [])
  unfolding create_invitation granted_role
  admin_row db db' i account_id token ttl random now e =
      (ground arith, ground arith, ground arith, ground arith, ground arith)

  -- The row that a registration enrolls by decides the account, and an admin's grant the role.
  enrolled_by :
      (db db' : Db) (d : Device) (i : Invitation) (token : String) (random : Bytes) (now : ℕ)
      (key : Bytes) (endpoint capabilities : String)
      → register_device sha256 token key endpoint capabilities random now db ≡ ok (d, db')
      → find_row
          (λ j. j.token_hash == hash_token sha256 token)
          (update
            (is_usable (hash_token sha256 token) (format now))
            (λ j. record j { consumed = true })
            db.invitations)
        ≡ some i
      → i.grants_role ≡ role_admin
      → (d.role ≡ role_admin) × (d.account_id ≡ i.account_id)
  unfolding register_device registered_role insert_device enroll consume
  enrolled_by db db' d i token random now key endpoint capabilities e f g =
      (ground arith, ground arith)

  -- An invitation that grants the admin's role enrolls admins of its account.
  admin_invitation :
      (db db' db'' : Db) (i : Invitation) (d : Device) (account_id token : String) (ttl : ℤ)
      (random random' : Bytes) (now now' : ℕ) (key : Bytes) (endpoint capabilities : String)
      → create_invitation sha256 account_id ttl role_admin token random now db ≡ ok (i, db')
      → register_device sha256 token key endpoint capabilities random' now' db' ≡ ok (d, db'')
      → (d.role ≡ role_admin) × (d.account_id ≡ account_id)
  admin_invitation db db' db'' i d account_id token ttl random random' now now' key endpoint
        capabilities e f =
      let (grant, account, hash, new, rows) =
        admin_row db db' i account_id token ttl random now e in
      let p : Invitation → Bool = λ j. j.token_hash == hash_token sha256 token in
      let q = is_usable (hash_token sha256 token) (format now') in
      let found =
        ap (λ r. find_row p (update q (λ j. record j { consumed = true }) r)) rows
        ∙ find-update_last p q (λ j. record j { consumed = true }) db.invitations i (λ r. refl) new
            ((eq_iff i.token_hash (hash_token sha256 token)).1 hash) in
      let (role, same) =
        enrolled_by db' db'' d _ token random' now' key endpoint capabilities f found
          (kept (q i) ∙ grant) in
      (role, same ∙ kept_account (q i) ∙ account)
    where
      kept :
          (b : Bool) → (if b then record i { consumed = true } else i).grants_role ≡ i.grants_role
      kept true = refl
      kept false = refl

      kept_account :
          (b : Bool) → (if b then record i { consumed = true } else i).account_id ≡ i.account_id
      kept_account true = refl
      kept_account false = refl

account_id :
    (class : String) (bytes : ℤ) (mode : String) (now : ℕ) (random : Bytes) (db db' : Db)
    (acc : Account)
    → create_account class bytes mode now random db ≡ ok (acc, db')
    → acc.id ≡ new_id "acc_" random
unfolding create_account
account_id class bytes mode now random db db' acc e = ground arith

module _ {Key : Type 0} (env : Environment Key) where
  -- What a creation of an account does to the database: an account, then an invitation to it that
  -- grants the admin's role.
  created_parts :
      (run : Run) (args : List String) (flags : Flags) (m m' : Machine)
      → env.parse args ≡ some flags
      → run_admin_account_create env run args m ≡ (done tt, m')
      → (ttl : ℤ) × (inv : Invitation) × (db : Db) × (db' : Db) × (create_invitation env.sha256
            (new_id "acc_" run.random)
            ttl
            role_admin
            run.token
            run.random'
            run.now
            db
          ≡ ok (inv, db'))
        × (m'.databases (db_path env flags) ≡ some db')
  unfolding run_admin_account_create
  created_parts run args flags m m' e f =
      let path = db_path env flags in
      let class = or_default (flags.text "quota") "standard" in
      let bytes = or_default (flags.number "quota-bytes") (pos 0) in
      let mode = or_default (flags.text "admin-mode") admin_mode_flat in
      let ttl = or_default (flags.number "ttl") (pos (15 * 60 * second)) in
      elim (step_cases (run_store path (create_account class bytes mode run.now run.random) m)) [
        | inl (x, p) ↦ absurd (ground arith)
        | inr (acc, p) ↦
            let m₁ = (run_store path (create_account class bytes mode run.now run.random) m).1 in
            let (db₀, db₁, p₀, p₁, p₂) = run_store-parts path _ m m₁ acc p in
            let id : acc.id ≡ new_id "acc_" run.random =
              account_id class bytes mode run.now run.random db₀ db₁ acc p₁ in
            let invite =
              create_invitation env.sha256 acc.id ttl role_admin run.token run.random' run.now in
            elim (step_cases (run_store path invite m₁)) [
              | inl (x, q) ↦ absurd (ground (arith, p₀))
              | inr (inv, q) ↦
                  let m₂ = (run_store path invite m₁).1 in
                  let (db₂, db₃, q₀, q₁, q₂) = run_store-parts path _ m₁ m₂ inv q in
                  (
                    ttl,
                    inv,
                    db₂,
                    db₃,
                    ap
                          (λ a.
                            create_invitation env.sha256 a ttl role_admin run.token run.random'
                              run.now db₂)
                          (sym id)
                        ∙ q₁,
                    ground (arith, p₀, q₂),
                  )
            ]
      ]

  -- A device that enrolls with the token of `sund admin account create`, with nothing written in
  -- between, belongs to the new account and is an admin, whatever the account's mode of
  -- administration.
  pub founding-admin :
      (run : Run) (args : List String) (flags : Flags) (m m' : Machine) (db db' : Db) (d : Device)
      (key : Bytes) (endpoint capabilities : String) (random : Bytes) (now : ℕ)
      → env.parse args ≡ some flags
      → run_admin_account_create env run args m ≡ (done tt, m')
      → m'.databases (db_path env flags) ≡ some db
      → register_device env.sha256 run.token key endpoint capabilities random now db ≡ ok (d, db')
      → (d.role ≡ role_admin) × (d.account_id ≡ new_id "acc_" run.random)
  founding-admin run args flags m m' db db' d key endpoint capabilities random now e f g h =
      let (ttl, inv, db₀, db₁, made, stored) = created_parts run args flags m m' e f in
      let same : db ≡ db₁ = ground (arith, g, stored) in
      admin_invitation env.sha256 db₀ db₁ db' inv d (new_id "acc_" run.random) run.token ttl
        run.random' random run.now now key endpoint capabilities made
        (ap (register_device env.sha256 run.token key endpoint capabilities random now) (sym same)
          ∙ h)

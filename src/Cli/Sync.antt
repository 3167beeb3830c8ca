-- ===== src/Cli/Sync.antt =====
-- The permission table after the catalog has been mirrored into it.
use fastapi_template.Prelude.{
  ℕ, ◌+◌, String, ◌≡◌, refl, sym, ◌∙◌, ap, inl, inr, Bool, true, false, not, ◌&&◌, ◌||◌, none, some,
  List, [], ◌∷◌, ◌++◌, if◌then◌else◌, ◌==◌, nat_eq, string_eq, option_eq, arith, Option-cases,
  beq_refl, subst,
}
use fastapi_template.Prelude.Lists.{find, all, any, lookup, find-passes, all-find}
use fastapi_template.Error.{Result, ok}
use fastapi_template.Models.{Permission}
use fastapi_template.World.{Db, World, Action}
use fastapi_template.World.Calls.{bind-eq-ok, bind-state}
use fastapi_template.Rbac.Registry.{permission_registry, registry_get}
use fastapi_template.Rbac.Delegation.Effective.{is_synced, bit-eq-name}
use fastapi_template.Repositories.PermissionRepo.{create_with_bit, get_by_name}
use fastapi_template.Cli.{sync_row, sync_entry, sync_from, sync_with_session}

-- The first row of a name has the bit.
unfoldable pub has : String → ℕ → List Permission → Bool
has name bit rows = elim (find (λ p. p.name == name) rows) [
  | none ↦ false
  | some row ↦ row.bit_position == some bit
]

has-append :
    (name : String) (bit : ℕ) (rows : List Permission) (row : Permission)
    → has name bit rows ≡ true
    → has name bit (rows ++ row ∷ []) ≡ true
unfolding has find
has-append name bit [] row h = ground arith
has-append name bit (p ∷ rows) row h = ground (arith, has-append name bit rows row)

has-new :
    (name : String) (bit key : ℕ) (rows : List Permission)
    → find (λ p. p.name == name) rows ≡ none
    → has name bit (rows ++ record { id = key; name = name; bit_position = some bit } ∷ []) ≡ true
unfolding has find
has-new name bit key [] h = ground (arith, beq_refl name)
has-new name bit key (p ∷ rows) h = ground (arith, has-new name bit key rows)

module _ (new_id : Db → ℕ) where
  abbrev rows_after : {A : Type 0} → Action A → World → List Permission
  rows_after m w = (m w).1.db.permissions

  entry-keeps :
      (n : String) (b : ℕ) (name : String) (bit : ℕ) (w : World)
      → has n b w.db.permissions ≡ true
      → has n b (sync_entry new_id name bit w).1.db.permissions ≡ true
  unfolding sync_entry sync_row get_by_name create_with_bit
  entry-keeps n b name bit w h = ground (
    arith,
    has-append n b w.db.permissions
        (record { id = new_id w.db; name = name; bit_position = some bit }),
  )

  entry-has :
      (name : String) (bit : ℕ) (w : World) (is_new : Bool)
      → (sync_entry new_id name bit w).0 ≡ ok is_new
      → has name bit (sync_entry new_id name bit w).1.db.permissions ≡ true
  unfolding sync_entry sync_row get_by_name create_with_bit has
  entry-has name bit w is_new h = ground (arith, has-new name bit (new_id w.db) w.db.permissions)

  entry-idle :
      (name : String) (bit : ℕ) (w : World)
      → has name bit w.db.permissions ≡ true
      → sync_entry new_id name bit w ≡ (ok false, w)
  unfolding sync_entry sync_row get_by_name has
  entry-idle name bit w h = ground arith

  from-keeps :
      (n : String) (b created : ℕ) (entries : List (String × ℕ)) (w : World)
      → has n b w.db.permissions ≡ true
      → has n b (sync_from new_id created entries w).1.db.permissions ≡ true
  unfolding sync_from
  from-keeps n b created [] w h = h
  from-keeps n b created ((name, bit) ∷ entries) w h =
      let w' = (sync_entry new_id name bit w).1 in
      ground (
        arith,
        entry-keeps n b name bit w,
        from-keeps n b created entries w',
        from-keeps n b (created + 1) entries w',
      )

  from-has :
      (created : ℕ) (entries : List (String × ℕ)) (w : World) (n : ℕ)
      → (sync_from new_id created entries w).0 ≡ ok n
      → all (λ e. has e.0 e.1 (sync_from new_id created entries w).1.db.permissions) entries ≡ true
  unfolding sync_from all
  from-has created [] w n h = refl
  from-has created ((name, bit) ∷ entries) w n h =
      let w' = (sync_entry new_id name bit w).1 in
      let rest : Bool → Action ℕ =
        λ is_new. sync_from new_id (if is_new then created + 1 else created) entries in
      let (is_new, e, h') = bind-eq-ok (sync_entry new_id name bit) rest w n h in
      let k : ℕ = if is_new then created + 1 else created in
      subst
        (λ (r : Result ℕ × World).
          all (λ e'. has e'.0 e'.1 r.1.db.permissions) ((name, bit) ∷ entries) ≡ true)
        (sym (bind-state (sync_entry new_id name bit) rest w is_new e))
        (ground (
          arith,
          from-keeps name bit k entries w' (entry-has name bit w is_new e),
          from-has k entries w' n h',
        ))

  from-idle :
      (created : ℕ) (entries : List (String × ℕ)) (w : World)
      → all (λ e. has e.0 e.1 w.db.permissions) entries ≡ true
      → sync_from new_id created entries w ≡ (ok created, w)
  unfolding sync_from all
  from-idle created [] w h = refl
  from-idle created ((name, bit) ∷ entries) w h =
      ground (arith, entry-idle name bit w, from-idle created entries w)

  -- A run of the sync that does not raise leaves for every name of the catalog a row with its bit, and
  -- a further run creates nothing and changes nothing.
  pub sync-idempotent :
      (w : World) (n : ℕ)
      → (sync_with_session new_id w).0 ≡ ok n
      → let w' = (sync_with_session new_id w).1 in
        (all (λ e. has e.0 e.1 w'.db.permissions) permission_registry ≡ true)
        × (sync_with_session new_id w' ≡ (ok 0, w'))
  unfolding sync_with_session
  sync-idempotent w n h =
      let w' = (sync_from new_id 0 permission_registry w).1 in
      let there = from-has 0 permission_registry w n h in
      (there, from-idle 0 permission_registry w' there)

  no_clash :
      (name : String) (bit key : ℕ) (rows : List Permission)
      → registry_get name ≡ some bit
      → all is_synced rows ≡ true
      → all (λ p. not (p.id == key)) rows ≡ true
      → find (λ p. p.name == name) rows ≡ none
      → any (λ p. p.name == name || p.bit_position == some bit || p.id == key) rows ≡ false
  unfolding any all find
  no_clash name bit key [] found synced new h = refl
  no_clash name bit key (p ∷ rows) found synced new h =
      ground (arith, no_clash name bit key rows found, bit-eq-name p name bit found)

  all-snoc :
      (rows : List Permission) (row : Permission)
      → all is_synced (rows ++ row ∷ []) ≡ (all is_synced rows && is_synced row)
  unfolding all
  all-snoc [] row = ground arith
  all-snoc (p ∷ rows) row = ground (arith, all-snoc rows row)

  entry-returns :
      (name : String) (bit : ℕ) (w : World)
      → registry_get name ≡ some bit
      → all is_synced w.db.permissions ≡ true
      → all (λ p. not (p.id == new_id w.db)) w.db.permissions ≡ true
      → (is_new : Bool) × ((sync_entry new_id name bit w).0 ≡ ok is_new)
        × (all is_synced (sync_entry new_id name bit w).1.db.permissions ≡ true)
  unfolding sync_entry sync_row get_by_name create_with_bit
  entry-returns name bit w found synced new =
      let rows = w.db.permissions in
      elim (Option-cases (find (λ p. p.name == name) rows)) [
        | inl missing ↦
            let clash = no_clash name bit (new_id w.db) rows found synced new missing in
            let row : Permission = record {
              id = new_id w.db;
              name = name;
              bit_position = some bit;
            } in
            let same : is_synced row ≡ true = rw found (beq_refl (some bit)) in
            (true, ground arith, ground (arith, all-snoc rows row))
        | inr (row, there) ↦
            let named : (row.name == name) ≡ true =
              find-passes (λ p. p.name == name) rows row there in
            let agrees : is_synced row ≡ true =
              all-find (λ p. p.name == name) is_synced rows row synced there in
            let bits = bit-eq-name row name bit found agrees in (false, ground arith, ground arith)
      ]

  module _ (fresh : (db : Db) → all (λ p. not (p.id == new_id db)) db.permissions ≡ true) where
    from-returns :
        (created : ℕ) (entries : List (String × ℕ)) (w : World)
        → all (λ e. registry_get e.0 == some e.1) entries ≡ true
        → all is_synced w.db.permissions ≡ true
        → (n : ℕ) × ((sync_from new_id created entries w).0 ≡ ok n)
    unfolding sync_from all
    from-returns created [] w known synced = (created, refl)
    from-returns created ((name, bit) ∷ entries) w known synced =
        let found : registry_get name ≡ some bit =
          (option_eq.beq_iff (registry_get name) (some bit)).0 (ground arith) in
        let (is_new, e, synced') = entry-returns name bit w found synced (fresh w.db) in
        let rest : Bool → Action ℕ =
          λ b. sync_from new_id (if b then created + 1 else created) entries in
        let (n, h) =
          from-returns (if is_new then created + 1 else created) entries
            (sync_entry new_id name bit w).1 (ground arith) synced' in
        (n, ap (λ r. r.0) (bind-state (sync_entry new_id name bit) rest w is_new e) ∙ h)

    -- Where every row of the table has the bit of its name in the catalog, or none if its name is not in
    -- the catalog, and the database gives new keys to new rows, the sync ends without an exception and
    -- every name of the catalog then has a row with its bit.
    pub sync-returns :
        (w : World)
        → all is_synced w.db.permissions ≡ true
        → (n : ℕ) × ((sync_with_session new_id w).0 ≡ ok n)
          × (all
                (λ e. has e.0 e.1 (sync_with_session new_id w).1.db.permissions)
                permission_registry
              ≡ true)
    unfolding sync_with_session
    sync-returns w synced =
        let (n, h) =
          from-returns 0 permission_registry w
            (unfold all permission_registry registry_get lookup in refl) synced in
        (n, h, from-has 0 permission_registry w n h)

-- ===== src/Api/Definitions/Keys.antt =====
-- Under which key a deployed definition is stored: `DeployProcess` of
-- engine/internal/integration/postgres/repository.go.
use Prim.Native.Char.{code}
use proctssor.Prelude.{
  ℕ, String, ◌==◌, eq_iff, ◌≡◌, ◌≢◌, subst, refl, sym, ◌∙◌, ap, Bool, true, false, ◌&&◌, ◌||◌, not,
  [], ◌∷◌, exists, select-All, All, Option, none, some, arith, leb, Bool-cases, Option-cases, ◌⊎◌,
  inl, inr,
}
use proctssor.Executor.Delegate.{is_space}
use proctssor.Executor.Expression.Pieces.{joined}
use proctssor.Api.Definitions.{
  Definition, Table, Fault, first_word, skip_spaces, scan_id, has_key, update_definition,
  deploy_process, row_of_id, latest_of_key, delete_process,
}

abbrev pub spaceless : String → Bool
spaceless String.[] = true
spaceless (String.◌∷◌ c s) = not (is_space c) && spaceless s

first_word-spaceless : (s : String) → spaceless s ≡ true → first_word s ≡ s
unfolding first_word
first_word-spaceless String.[] h = refl
first_word-spaceless (String.◌∷◌ c s) h = ground (arith, h, first_word-spaceless s)

skip_spaces-spaceless : (s : String) → spaceless s ≡ true → skip_spaces s ≡ s
unfolding skip_spaces
skip_spaces-spaceless String.[] h = refl
skip_spaces-spaceless (String.◌∷◌ c s) h = ground (arith, h)

-- The version is never read.
pub scan_id-spaceless : (id : String) → spaceless id ≡ true → id ≢ "" → scan_id id ≡ (id, 0)
unfolding scan_id
scan_id-spaceless id h named =
    let word : first_word (skip_spaces id) ≡ id =
      ap first_word (skip_spaces-spaceless id h) ∙ first_word-spaceless id h in
    rw (scan_id, word) (ground (arith, eq_iff id "", named))

-- An underscore is in it.
abbrev pub marked : String → Bool
marked String.[] = false
marked (String.◌∷◌ c s) = (leb (code c) 95 && leb 95 (code c)) || marked s

pub spaceless-joined :
    (s t : String) → spaceless s ≡ true → spaceless t ≡ true → spaceless (joined s t) ≡ true
spaceless-joined String.[] t hs ht = ht
spaceless-joined (String.◌∷◌ c s) t hs ht = ground (arith, hs, spaceless-joined s t _ ht)

pub marked-joined : (s t : String) → marked t ≡ true → marked (joined s t) ≡ true
marked-joined String.[] t h = h
marked-joined (String.◌∷◌ c s) t h = ground (arith, marked-joined s t h)

-- A row under its own identifier, as version 0.
pub record IsPlain (row : Definition) : Type 0 where
  pub own : row.process_key ≡ row.id
  pub unversioned : row.version ≡ 0
  pub underscore : marked row.id ≡ true

row_of_id-IsPlain :
    (k : String) (rows : Table) (row : Definition)
    → All IsPlain rows
    → row_of_id k rows ≡ some row
    → row.version ≡ 0
unfolding row_of_id
row_of_id-IsPlain k [] row h found = absurd (ground (arith, found))
row_of_id-IsPlain k (first ∷ rows) row h found =
    ground (arith, h, h.0, h.0.unversioned, found, row_of_id-IsPlain k rows row h.1)

pub latest-row :
    (k : String) (rows : Table) → All IsPlain rows → latest_of_key k rows ≡ row_of_id k rows
unfolding latest_of_key row_of_id
latest-row k [] h = refl
latest-row k (row ∷ rows) h =
    let same : latest_of_key k rows ≡ row_of_id k rows = latest-row k rows h.1 in
    let own : row.process_key ≡ row.id = h.0.own in
    rw (own, same)
      elim (Option-cases (row_of_id k rows)) [
        | inl gone ↦ ground (arith, gone)
        | inr (b, found) ↦
            ground (arith, found, h.0.unversioned, row_of_id-IsPlain k rows b h.1 found)
      ]

update_definition-IsPlain :
    (key : String) (version : ℕ) (d : String) (now : ℕ) (rows : Table)
    → All IsPlain rows
    → All IsPlain (update_definition key version d now rows)
unfolding update_definition
update_definition-IsPlain key version d now [] h = h
update_definition-IsPlain key version d now (row ∷ rows) h =
    let written : IsPlain (record row { definition = d; deployed_at = now }) = record {
      own = h.0.own;
      unversioned = h.0.unversioned;
      underscore = h.0.underscore;
    } in
    let rest = update_definition-IsPlain key version d now rows h.1 in
    elim (Bool-cases (has_key key version row)) [
      | inl here ↦ rw (here) (written, h.1)
      | inr other ↦ rw (other) (h.0, rest)
    ]

pub marked-named : (id : String) → marked id ≡ true → id ≢ ""
marked-named id h = λ nothing. ground (arith, sym h ∙ ap marked nothing)

-- What a deployment may leave behind.
deploy_process-cases :
    (fault : Fault) (now : ℕ) (id name d : String) (rows : Table)
    → spaceless id ≡ true
    → id ≢ ""
    → ((deploy_process fault now id name d rows).1 ≡ rows)
      ⊎ (((deploy_process fault now id name d rows).1 ≡ update_definition id 0 d now rows)
          ⊎ ((deploy_process fault now id name d rows).1
              ≡ record {
                id = id;
                process_key = id;
                version = 0;
                name = name;
                definition = d;
                deployed_at = now;
              }
                ∷ rows))
unfolding deploy_process
deploy_process-cases fault now id name d rows h named = ground (arith, scan_id-spaceless id h named)

pub deploy_process-IsPlain :
    (fault : Fault) (now : ℕ) (id name d : String) (rows : Table)
    → spaceless id ≡ true
    → marked id ≡ true
    → All IsPlain rows
    → All IsPlain (deploy_process fault now id name d rows).1
deploy_process-IsPlain fault now id name d rows h underscore plain =
    let new : Definition = record {
      id = id;
      process_key = id;
      version = 0;
      name = name;
      definition = d;
      deployed_at = now;
    } in
    let new_plain : IsPlain new = record {
      own = refl;
      unversioned = refl;
      underscore = underscore;
    } in
    elim (deploy_process-cases fault now id name d rows h (marked-named id underscore)) [
      | inl same ↦ subst (All IsPlain) (sym same) plain
      | inr (inl updated) ↦
          subst (All IsPlain) (sym updated) (update_definition-IsPlain id 0 d now rows plain)
      | inr (inr added) ↦ subst (All IsPlain) (sym added) (new_plain, plain)
    ]

pub delete_process-IsPlain :
    (fault : Fault) (id : String) (rows : Table)
    → All IsPlain rows
    → All IsPlain (delete_process fault id rows).1
unfolding delete_process
delete_process-IsPlain none id rows plain =
    select-All IsPlain (λ row. not (row.id == id)) rows plain
delete_process-IsPlain (some e) id rows plain = plain

-- A key without an underscore is no row's identifier.
pub row_of_id-unmarked :
    (k : String) (rows : Table) → All IsPlain rows → marked k ≡ false → row_of_id k rows ≡ none
unfolding row_of_id
row_of_id-unmarked k [] h plain = refl
row_of_id-unmarked k (row ∷ rows) h plain =
    let differs : row.id ≢ k =
      λ same. ground (arith, sym h.0.underscore ∙ ap marked same ∙ plain) in
    ground (arith, eq_iff row.id k, differs, row_of_id-unmarked k rows h.1 plain)

pub exists-IsPlain :
    (id : String) (rows : Table)
    → All IsPlain rows
    → exists (has_key id 0) rows ≡ exists (λ row. row.id == id) rows
exists-IsPlain id [] h = refl
exists-IsPlain id (row ∷ rows) h =
    rw (h.0.own, h.0.unversioned, exists-IsPlain id rows h.1) (ground arith)

-- The definition that is stored under an identifier.
abbrev pub definition_of : String → Table → Option String
definition_of id rows = elim (row_of_id id rows) [ none ↦ none | some row ↦ some row.definition ]

updated-row :
    (id d : String) (now : ℕ) (rows : Table)
    → All IsPlain rows
    → exists (λ row. row.id == id) rows ≡ true
    → definition_of id (update_definition id 0 d now rows) ≡ some d
unfolding row_of_id update_definition
updated-row id d now [] h found = absurd (ground (arith, found))
updated-row id d now (row ∷ rows) h found =
    ground (arith, h.0.own, h.0.unversioned, found, updated-row id d now rows h.1)

-- With a database that works, what is deployed is what is stored.
pub deploy_process-definition :
    (now : ℕ) (id name d : String) (rows : Table)
    → spaceless id ≡ true
    → marked id ≡ true
    → All IsPlain rows
    → ((deploy_process none now id name d rows).0 ≡ none)
      × (definition_of id (deploy_process none now id name d rows).1 ≡ some d)
unfolding deploy_process row_of_id
deploy_process-definition now id name d rows h underscore plain = ground (
  arith,
  scan_id-spaceless id h (marked-named id underscore),
  eq_iff id "",
  eq_iff id id,
  marked-named id underscore,
  exists-IsPlain id rows plain,
  updated-row id d now rows plain,
)

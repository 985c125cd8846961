-- ===== src/Main/Loads.antt =====
-- What getConfig makes of the file's contents.
use kombiner.Prelude.{◌≡◌, ◌↔◌, ◌∙◌, refl, sym, ap, String, List, [], Option, none, some}
use kombiner.Api.Config.{Configuration}
use kombiner.Configuration.{load}
use kombiner.Configuration.Accepts.{IsWellFormed, load_lem}
use kombiner.Main.{Environment, encoded, get_config, print_error, read_config}

module _ (env : Environment) where
  -- The library gives no error for exactly the empty list of field errors.
  abbrev pub Aggregates : Type 0
  Aggregates = (errs : List (env.field.Error)) → (env.field.to_aggregate errs ≡ none) ↔ (errs ≡ [])

  load_same : (decoded : Option String × Configuration) → (load env.field decoded).0 ≡ decoded.1
  unfolding load
  load_same (none, config) = refl
  load_same (some err, config) = refl

  encoded_lem :
      (loaded : Configuration × Option String)
      → ((encoded env loaded).1 ≡ none) ↔ ((loaded.1 ≡ none) × (print_error env loaded.0 ≡ none))
  unfolding encoded
  encoded_lem (config, none) = ((λ e. (refl, e)), (λ h. h.1))
  encoded_lem (config, some err) = ((λ e. absurd (cc)), (λ h. absurd (let e = h.0 in cc)))

  encoded_same : (loaded : Configuration × Option String) → (encoded env loaded).0 ≡ loaded.0
  unfolding encoded
  encoded_same (config, none) = refl
  encoded_same (config, some err) = refl

  pub get_config_lem :
      (path : String)
      → Aggregates
      → ((get_config env path).1 ≡ none) ↔ (
          ((read_config env path).0 ≡ none)
          × IsWellFormed (read_config env path).1
          × (print_error env (read_config env path).1 ≡ none))
  unfolding get_config
  get_config_lem path aggregates =
      let (there, back) = encoded_lem (load env.field (read_config env path)) in
      let (loads, loaded) = load_lem env.field aggregates (read_config env path) in
      let same = ap (print_error env) (load_same (read_config env path)) in
      (
        (λ e. ((loads (there e).0).0, (loads (there e).0).1, sym same ∙ (there e).1)),
        (λ (read, well, printed). back (loaded (read, well), same ∙ printed)),
      )

  pub get_config_same : (path : String) → (get_config env path).0 ≡ (read_config env path).1
  unfolding get_config
  get_config_same path =
      encoded_same (load env.field (read_config env path)) ∙ load_same (read_config env path)

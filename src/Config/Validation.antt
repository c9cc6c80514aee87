-- ===== src/Config/Validation.antt =====
-- config/config.go: what a configuration that was loaded without an error has.
use ams_push_server.Base.{
  ap, ok_inj, ℕ, String, ◌≡◌, ◌≢◌, refl, sym, Bool, true, false, List, [], ◌∷◌, All, Option, none,
  some, Result, ok, err, unless, arith, eqb, eqb_iff, ne_of_test, if◌then◌else◌, Option-cases, ◌⊎◌,
  inl, inr,
}
use ams_push_server.Config.{
  get_log_level, level_or_info, Config, Level, Field, FieldValue, text, number, flag, texts,
  unexported, field, is_zero, first_missing, fields, validate_required, log_levels, check_log_level,
  load_tls_config, load_decoded, load_from_json, Files, get_client_auth_type, load_cas,
}

first_missing-field :
    (json : String) (required : Bool) (v : FieldValue) (fs : List Field)
    → first_missing (field json required v ∷ fs) ≡ none
    → (required ≡ true → is_zero v ≡ false) × (first_missing fs ≡ none)
unfolding first_missing is_zero
first_missing-field json required (text s) fs e = ground arith
first_missing-field json required (number n) fs e = ground arith
first_missing-field json required (flag b) fs e = ground arith
first_missing-field json required (texts []) fs e = ground arith
first_missing-field json required (texts (t ∷ ts)) fs e = ground arith
first_missing-field json required unexported fs e = (λ r. refl, e)

-- A field that is required is not the zero value of its type.
abbrev IsGiven : Field → Type 0
IsGiven f = f.required ≡ true → is_zero f.value ≡ false

first_missing-All : (fs : List Field) → first_missing fs ≡ none → All IsGiven fs
first_missing-All [] e = tt
first_missing-All (f ∷ fs) e =
    let (s, r) = first_missing-field f.json f.required f.value fs e in (s, first_missing-All fs r)

-- The required fields have values.
pub record IsFilled (cfg : Config) : Type 0 where
  pub bind_port_set : cfg.bind_port ≢ 0
  pub certificate_set : cfg.certificate ≢ ""
  pub certificate_key_set : cfg.certificate_key ≢ ""
  pub certificate_authorities_dir_set : cfg.certificate_authorities_dir ≢ ""
  pub ams_token_set : cfg.ams_token ≢ ""
  pub ams_host_set : cfg.ams_host ≢ ""
  pub ams_port_set : cfg.ams_port ≢ 0
  pub log_level_set : cfg.log_level ≢ ""

number_set : (n : ℕ) → eqb n 0 ≡ false → n ≢ 0
number_set n f e = ground (arith, eqb_iff n 0)

validate_required-IsFilled : (cfg : Config) → validate_required cfg ≡ none → IsFilled cfg
unfolding validate_required fields is_zero
validate_required-IsFilled cfg e =
    let (_, (a, (b, (c, (d, (f, (g, (h, (_, (_, (_, (l, _)))))))))))) =
      first_missing-All (fields cfg) e in
    record {
      bind_port_set = number_set cfg.bind_port (a refl);
      certificate_set = ne_of_test (b refl);
      certificate_key_set = ne_of_test (c refl);
      certificate_authorities_dir_set = ne_of_test (d refl);
      ams_token_set = ne_of_test (f refl);
      ams_host_set = ne_of_test (g refl);
      ams_port_set = number_set cfg.ams_port (h refl);
      log_level_set = ne_of_test (l refl);
    }

-- Without tls nothing else changes; with tls the key pair was read and the tls configuration is set.
abbrev pub IsSecured : Files → Config → Config → Type 0
IsSecured files read cfg' =
    ((read.tls_enabled ≡ false) × (cfg' ≡ read))
    ⊎ ((read.tls_enabled ≡ true)
        × (files.load_key_pair_error read.certificate read.certificate_key ≡ none)
        × (cfg' ≡ record read {
          tls_config = some (record {
            client_auth = get_client_auth_type read;
            certificate = read.certificate;
            client_cas = load_cas files read;
          });
        }))

-- The configuration `cfg'` that loading a text over `cfg` gives.
pub record IsLoaded (files : Files) (from : String) (cfg cfg' : Config) : Type 0 where
  pub read : Config
  pub decoded : files.decode_config from cfg ≡ ok read
  pub filled : IsFilled read
  pub level : Level
  pub level_known : log_levels (files.to_upper read.log_level) ≡ some level
  pub secured : IsSecured files read cfg'

unless-ok :
    {A : Type 0} (o : Option String) (r : Result String A) {a : A}
    → unless o r ≡ ok a
    → (o ≡ none) × (r ≡ ok a)
unless-ok none r e = (refl, e)
unless-ok (some t) r e = cc

module _ (files : Files) where
  known_level :
      (cfg : Config)
      → check_log_level files cfg ≡ none
      → (l : Level) × (log_levels (files.to_upper cfg.log_level) ≡ some l)
  unfolding check_log_level
  known_level cfg e = elim (Option-cases (log_levels (files.to_upper cfg.log_level))) [
    | inl n ↦ absurd (ground arith)
    | inr found ↦ found
  ]

  IsSecured-load_tls_config :
      (c : Config) (enabled : Bool) {cfg' : Config}
      → c.tls_enabled ≡ enabled
      → (if enabled then load_tls_config files c else ok c) ≡ ok cfg'
      → IsSecured files c cfg'
  unfolding load_tls_config
  IsSecured-load_tls_config c true t e =
      let (k, e') = unless-ok _ _ e in inr (t, k, sym (ok_inj e'))
  IsSecured-load_tls_config c false f e = inl (f, sym (ok_inj e))

  load_decoded-IsLoaded :
      (from : String) (cfg : Config) (r : Result String Config) {cfg' : Config}
      → files.decode_config from cfg ≡ r
      → load_decoded files r ≡ ok cfg'
      → IsLoaded files from cfg cfg'
  unfolding load_decoded
  load_decoded-IsLoaded from cfg (err t) d e = cc
  load_decoded-IsLoaded from cfg (ok c) {cfg'} d e =
      let (filled, e1) = unless-ok (validate_required c) _ e in
      let (level, e2) = unless-ok (check_log_level files c) _ e1 in
      let (l, known) = known_level c level in
      record {
        read = c;
        decoded = d;
        filled = validate_required-IsFilled c filled;
        level = l;
        level_known = known;
        secured = IsSecured-load_tls_config c c.tls_enabled refl e2;
      }

  -- If a configuration loads without an error, then every required field of what was read has a
  -- value, its log level is known, and, exactly if tls is enabled, the key pair was read and the tls
  -- configuration is set from the fields and the trusted certificates.
  pub load_from_json-IsLoaded :
      (from : String) (cfg cfg' : Config)
      → load_from_json files from cfg ≡ ok cfg'
      → IsLoaded files from cfg cfg'
  unfolding load_from_json
  load_from_json-IsLoaded from cfg cfg' e = load_decoded-IsLoaded from cfg _ refl e

-- The level of a known name.
pub get_log_level-known :
    (to_upper : String → String) (cfg : Config) {l : Level}
    → log_levels (to_upper cfg.log_level) ≡ some l
    → get_log_level to_upper cfg ≡ l
unfolding get_log_level level_or_info
get_log_level-known to_upper cfg e = ap level_or_info e

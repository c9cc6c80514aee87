-- ===== src/Config/Pool.antt =====
-- config/config.go: which certificate files `loadCAs` trusts. The pool is the list of the names that
-- were read in the configured directory and appended.
use mathlib.Core.Path.{subst}
use ams_push_server.Base.{
  true_ne, String, ◌≡◌, refl, sym, ap, ◌∙◌, true, false, List, [], ◌∷◌, Elem, All, none, some,
  Result, ok, err, Bool-cases, ◌⊎◌, inl, inr, ◌↔◌, if◌then◌else◌,
}
use ams_push_server.Config.{
  Config, Files, Visit, failed, visited, append_file, visit, walk_files, load_cas,
}

visited_inj : {p q a b : String} → visited p a ≡ visited q b → a ≡ b
visited_inj e = cc

-- A name was visited, under some path.
abbrev pub IsVisited : String → List Visit → Type 0
IsVisited n vs = (path : String) × Elem (visited path n) vs

module _ (files : Files) (dir : String) where
  -- A .pem name that can be read and parsed in the directory itself.
  abbrev pub IsCertificate : String → Type 0
  IsCertificate name =
      (files.is_pem name ≡ true)
      × (bytes : String) × (files.read_file dir name ≡ ok bytes)
      × (files.parses bytes ≡ true)

  -- A visit that does not stop the walk: a file that is no .pem file, or a certificate.
  abbrev pub IsFine : Visit → Type 0
  IsFine (failed e) = ⊥
  IsFine (visited path name) = (files.is_pem name ≡ false) ⊎ IsCertificate name

  append_file-cases :
      (name : String) (roots : List String)
      → files.is_pem name ≡ true
      → (append_file files dir name roots ≡ none)
        ⊎ ((append_file files dir name roots ≡ some (name ∷ roots)) × IsCertificate name)
  unfolding append_file
  append_file-cases name roots pem = of_read (files.read_file dir name) refl
    where
      of_read :
          (r : Result String String)
          → files.read_file dir name ≡ r
          → (elim r [
            | err e ↦ none
            | ok bytes ↦ if files.parses bytes then some (name ∷ roots) else none
          ]
              ≡ none)
            ⊎ ((elim r [
              | err e ↦ none
              | ok bytes ↦ if files.parses bytes then some (name ∷ roots) else none
            ]
                  ≡ some (name ∷ roots))
                × IsCertificate name)
      of_read (err e) p = inl refl
      of_read (ok bytes) p = elim (Bool-cases (files.parses bytes)) [
        | inl t ↦ inr (rw t refl, (pem, bytes, p, t))
        | inr f ↦ inl (rw f refl)
      ]

  append_file-IsCertificate :
      (name : String) (roots : List String)
      → IsCertificate name
      → append_file files dir name roots ≡ some (name ∷ roots)
  unfolding append_file
  append_file-IsCertificate name roots (_, bytes, read, parsed) =
      rw (read, append_file) (rw parsed refl)

  -- What a visit does to the pool: it stops the walk, passes on, or adds a certificate.
  visit-cases :
      (v : Visit) (roots : List String)
      → (visit files dir v roots ≡ none)
        ⊎ ((visit files dir v roots ≡ some roots)
            ⊎ ((path name : String) × (v ≡ visited path name)
                × (visit files dir v roots ≡ some (name ∷ roots))
                × IsCertificate name))
  unfolding visit
  visit-cases (failed e) roots = inl refl
  visit-cases (visited path name) roots = elim (Bool-cases (files.is_pem name)) [
    | inr f ↦ inr (inl (rw f refl))
    | inl t ↦ elim (append_file-cases name roots t) [
      | inl n ↦ inl (rw t n)
      | inr (s, c) ↦ inr (inr (path, name, refl, rw t s, c))
    ]
  ]

  walk_files-stops :
      (v : Visit) (vs : List Visit) (roots : List String)
      → visit files dir v roots ≡ none
      → walk_files files dir (v ∷ vs) roots ≡ roots
  unfolding walk_files
  walk_files-stops v vs roots e = rw (e, walk_files) refl

  walk_files-goes :
      (v : Visit) (vs : List Visit) (roots roots' : List String)
      → visit files dir v roots ≡ some roots'
      → walk_files files dir (v ∷ vs) roots ≡ walk_files files dir vs roots'
  unfolding walk_files
  walk_files-goes v vs roots roots' e = rw (e, walk_files) refl

  -- A name in the pool was there before, or was visited and is a certificate.
  walk_files_sound :
      (vs : List Visit) (roots : List String) (n : String)
      → Elem n (walk_files files dir vs roots)
      → Elem n roots ⊎ (IsVisited n vs × IsCertificate n)
  walk_files_sound [] roots n m = inl (unfold walk_files in m)
  walk_files_sound (v ∷ vs) roots n m = elim (visit-cases v roots) [
    | inl stop ↦ inl (rw (walk_files-stops v vs roots stop) at m)
    | inr (inl pass) ↦
        elim (walk_files_sound vs roots n (rw (walk_files-goes v vs roots roots pass) at m)) [
          | inl old ↦ inl old
          | inr ((path, p), c) ↦ inr ((path, inr p), c)
        ]
    | inr (inr (path, name, same, add, c)) ↦
        elim (walk_files_sound vs (name ∷ roots) n
          (rw (walk_files-goes v vs roots (name ∷ roots) add) at m)) [
            | inl (inl here) ↦
                inr ((path, inl (same ∙ ap (visited path) here)), subst IsCertificate here c)
            | inl (inr old) ↦ inl old
            | inr ((q, p), d) ↦ inr ((q, inr p), d)
          ]
  ]

  fine-IsCertificate :
      (name : String)
      → files.is_pem name ≡ true
      → (files.is_pem name ≡ false) ⊎ IsCertificate name
      → IsCertificate name
  fine-IsCertificate name pem (inl other) = absurd (true_ne pem other)
  fine-IsCertificate name pem (inr c) = c

  visit_pem :
      (path name : String) (roots : List String)
      → IsCertificate name
      → visit files dir (visited path name) roots ≡ some (name ∷ roots)
  unfolding visit
  visit_pem path name roots c = rw (c.0, visit) (append_file-IsCertificate name roots c)

  visit_other :
      (path name : String) (roots : List String)
      → files.is_pem name ≡ false
      → visit files dir (visited path name) roots ≡ some roots
  unfolding visit
  visit_other path name roots f = rw (f, visit) refl

  -- Walking over fine visits leaves in the pool what was there, and every certificate.
  walk_files_complete :
      (vs : List Visit) (roots : List String) (n : String)
      → All IsFine vs
      → Elem n roots ⊎ (IsVisited n vs × (files.is_pem n ≡ true))
      → Elem n (walk_files files dir vs roots)
  walk_files_complete [] roots n fine (inl old) = unfold walk_files in old
  walk_files_complete [] roots n fine (inr ((path, p), t)) = absurd p
  walk_files_complete (failed e ∷ vs) roots n fine m = absurd fine.0
  walk_files_complete (visited path name ∷ vs) roots n fine m =
      elim (Bool-cases (files.is_pem name)) [
        | inl t ↦
            let c = fine-IsCertificate name t fine.0 in
            rw
              (walk_files-goes (visited path name) vs roots (name ∷ roots)
                (visit_pem path name roots c))
              (walk_files_complete vs (name ∷ roots) n fine.1 (elim m [
                | inl old ↦ inl (inr old)
                | inr ((q, inl here), p) ↦ inl (inl (visited_inj here))
                | inr ((q, inr later), p) ↦ inr ((q, later), p)
              ]))
        | inr f ↦
            rw (walk_files-goes (visited path name) vs roots roots (visit_other path name roots f))
              (walk_files_complete vs roots n fine.1 (elim m [
                | inl old ↦ inl old
                | inr ((q, inl here), p) ↦
                    absurd (true_ne p (ap files.is_pem (sym (visited_inj here)) ∙ f))
                | inr ((q, inr later), p) ↦ inr ((q, later), p)
              ]))
      ]

module _ (files : Files) (cfg : Config) where
  -- The pool never trusts anything but what is read and parsed in the configured directory itself under
  -- a .pem name that the walk over that directory visits, at whatever depth.
  pub load_cas-IsCertificate :
      (name : String)
      → Elem name (load_cas files cfg)
      → IsVisited name (files.walk cfg.certificate_authorities_dir)
        × IsCertificate files cfg.certificate_authorities_dir name
  unfolding load_cas
  load_cas-IsCertificate name m =
      elim (walk_files_sound files cfg.certificate_authorities_dir _ [] name m) [
        | inl old ↦ absurd old
        | inr found ↦ found
      ]

  -- If no visit of the walk fails, and every visited .pem name can be read and parsed in the configured
  -- directory itself, then the pool has exactly these names, each for the file of that name in the
  -- configured directory, in whatever directory below it was visited.
  pub load_cas_iff :
      (name : String)
      → All
          (IsFine files cfg.certificate_authorities_dir)
          (files.walk cfg.certificate_authorities_dir)
      → Elem name (load_cas files cfg)
        ↔ (IsVisited name (files.walk cfg.certificate_authorities_dir) × (files.is_pem name ≡ true))
  unfolding load_cas
  load_cas_iff name fine = (
    λ m. let (p, c) = load_cas-IsCertificate name m in (p, c.0),
    λ m. walk_files_complete files cfg.certificate_authorities_dir _ [] name fine (inr m),
  )

-- ===== src/Api/Visitor/Pages/Sending.antt =====
-- Which file serving a variant sends.
use mathlib.Core.Path.{subst}
use photogallery.Prelude.{some, arith, none, ◌≡◌, refl, inl, inr, ◌⊎◌}
use photogallery.Prelude.Text.{Text}
use photogallery.Exec.{Result, ok, err, pure, ◌>>=◌}
use photogallery.Exec.Keeps.{Keeps}
use photogallery.Exec.Ensures.{Ensures, Ensures-pure, Ensures-throw, Ensures-next, Ensures-bind}
use photogallery.Db.{Album, Photo}
use photogallery.Storage.{
  Disk, Store, contents_at, syscall, open_file, stat, Variant, original, large, medium, small,
  thumb, blur, StoreError,
}
use photogallery.Api.{Env, Server, Served, Reply, photo_file, try_store, internal_error}
use photogallery.Exec.Keeps.{Keeps-pure, Keeps-bind, Keeps-throw}
use photogallery.Api.Visitor.Pages.Reads.{IsAt}
use photogallery.Api.Visitor.Pages.{fall_back, opened, or_internal, etag, effective, serve_variant}
use photogallery.Api.Visitor.Pages.Files.{
  HasFiles, syscall-Keeps, stat-Keeps, open_file-Keeps, open_file-reads, IfMissing, stat-IfMissing,
}

module _ (s0 : Server) where
  pub try_store-Keeps :
      {A : Type 0} (d : Disk A) → Keeps (HasFiles s0.store) d → Keeps (IsAt s0) (try_store d)
  unfolding try_store
  try_store-Keeps d k = record {
    at = λ s h. record {
      tables = h.tables;
      sessions = h.sessions;
      now = h.now;
      files = k.at s.store h.files;
    };
  }

  module _ (env : Env) (a : Album) (p : Photo) where
    -- What lies at the path of a variant of the photo when the request comes.
    abbrev Holds : Variant → Text → Type 0
    Holds v c = contents_at a.id p.id v s0.store ≡ some c

    abbrev IfRead : Variant → Result StoreError Text → Type 0
    IfRead v (ok c) = Holds v c
    IfRead v (err e) = Unit

    read_result :
        (v : Variant) (st : Store) (r : Result StoreError Text)
        → HasFiles s0.store st
        → (open_file env.uuid_canonical a.id p.id v st).0 ≡ r
        → IfRead v r
    read_result v st (ok c) h e =
        (open_file-reads s0.store env.uuid_canonical a.id p.id v).at st c h e
    read_result v st (err x) h e = tt

    file-IfRead :
        (v : Variant)
        → Ensures (IsAt s0) (IfRead v) (try_store (open_file env.uuid_canonical a.id p.id v))
    unfolding try_store
    file-IfRead v = record { at = λ s r h e. read_result v s.store r h.files (ground (arith, e)) }

    opened-Holds :
        (v : Variant) (r : Result StoreError Text)
        → IfRead v r
        → Ensures (IsAt s0) (Holds v) (opened r)
    opened-Holds v (ok c) h = Ensures-pure c h
    opened-Holds v (err StoreError.not_exist) h = Ensures-throw _
    opened-Holds v (err e) h = Ensures-throw internal_error

    -- The variant that is served instead of the one that was asked for: the original if there is no
    -- large one.
    abbrev pub ServedAs : Variant → Variant → Type 0
    ServedAs asked v =
        (v ≡ asked)
        ⊎ ((asked ≡ large) × ((v ≡ original) × (contents_at a.id p.id large s0.store ≡ none)))

    fall_back-ServedAs :
        (r : Result StoreError (Unit {0}))
        → IfMissing s0.store env.uuid_canonical a.id p.id large r
        → ServedAs large (fall_back r)
    fall_back-ServedAs (ok u) h = inl refl
    fall_back-ServedAs (err StoreError.not_exist) h = inr (refl, (refl, h))
    fall_back-ServedAs (err StoreError.invalid_id) h = inl refl
    fall_back-ServedAs (err StoreError.io) h = inl refl
    fall_back-ServedAs (err StoreError.already_done) h = inl refl

    stat-Ensures :
        Ensures
          (IsAt s0)
          (IfMissing s0.store env.uuid_canonical a.id p.id large)
          (try_store (stat env.uuid_canonical a.id p.id large))
    unfolding try_store
    stat-Ensures = record {
      at = λ s r h e.
          subst (IfMissing s0.store env.uuid_canonical a.id p.id large) (ground (arith, e))
            (stat-IfMissing s0.store env.uuid_canonical a.id p.id large s.store h.files);
    }

    -- The variant that is sent, with the contents that lie at its path.
    abbrev pub SendsFile : Variant → Reply → Type 0
    SendsFile asked (photo_file f) = ServedAs asked f.variant × Holds f.variant f.contents
    SendsFile asked other = Unit

    opened-Keeps : (r : Result StoreError Text) → Keeps (IsAt s0) (opened r)
    opened-Keeps (ok c) = Keeps-pure c
    opened-Keeps (err StoreError.not_exist) = Keeps-throw _
    opened-Keeps (err e) = Keeps-throw internal_error

    effective-Keeps : (asked : Variant) → Keeps (IsAt s0) (effective env a p asked)
    unfolding effective
    effective-Keeps large =
        Keeps-bind (try_store (stat env.uuid_canonical a.id p.id large)) (λ r. pure (fall_back r))
          (try_store-Keeps _ (stat-Keeps s0.store env.uuid_canonical a.id p.id large))
          (λ r. Keeps-pure (fall_back r))
    effective-Keeps original = Keeps-pure original
    effective-Keeps medium = Keeps-pure medium
    effective-Keeps small = Keeps-pure small
    effective-Keeps thumb = Keeps-pure thumb
    effective-Keeps blur = Keeps-pure blur

    effective-ServedAs :
        (asked : Variant) → Ensures (IsAt s0) (ServedAs asked) (effective env a p asked)
    unfolding effective
    effective-ServedAs large =
        Ensures-bind (IfMissing s0.store env.uuid_canonical a.id p.id large)
          (try_store (stat env.uuid_canonical a.id p.id large)) (λ r. pure (fall_back r))
          (try_store-Keeps _ (stat-Keeps s0.store env.uuid_canonical a.id p.id large)) stat-Ensures
          (λ r h. Ensures-pure (fall_back r) (fall_back-ServedAs r h))
    effective-ServedAs original = Ensures-pure original (inl refl)
    effective-ServedAs medium = Ensures-pure medium (inl refl)
    effective-ServedAs small = Ensures-pure small (inl refl)
    effective-ServedAs thumb = Ensures-pure thumb (inl refl)
    effective-ServedAs blur = Ensures-pure blur (inl refl)

    pub serve_variant-SendsFile :
        (asked : Variant) (cache : Text)
        → Ensures (IsAt s0) (SendsFile asked) (serve_variant env a p asked cache)
    unfolding serve_variant
    serve_variant-SendsFile asked cache =
        Ensures-bind (ServedAs asked) (effective env a p asked) _ (effective-Keeps asked)
          (effective-ServedAs asked)
          λ v served.
            Ensures-bind (IfRead v) (try_store (open_file env.uuid_canonical a.id p.id v)) _
              (try_store-Keeps _ (open_file-Keeps s0.store env.uuid_canonical a.id p.id v))
              (file-IfRead v)
              λ r read.
                Ensures-bind (Holds v) (opened r) _ (opened-Keeps r) (opened-Holds v r read)
                  λ c holds.
                    Ensures-next (try_store syscall) _ (try_store-Keeps _ (syscall-Keeps s0.store))
                      λ i.
                        checked i
                          (record {
                            variant = v;
                            contents = c;
                            etag = etag p v;
                            cache_control = cache;
                          })
                          (served, holds)
      where
        checked :
            (i : Result StoreError (Unit {0})) (f : Served)
            → ServedAs asked f.variant × Holds f.variant f.contents
            → Ensures (IsAt s0) (SendsFile asked) (or_internal i >>= λ u. pure (photo_file f))
        checked (ok u) f h = search (Ensures-pure, h)
        checked (err e) f h = record { at = λ s b k r. absurd (ground (arith, r)) }

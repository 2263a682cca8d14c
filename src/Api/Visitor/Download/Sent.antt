-- ===== src/Api/Visitor/Download/Sent.antt =====
-- To whom `downloadAlbum` sends a zip, and what is in it.
use photogallery.Prelude.{
  ℕ, ◌≡◌, refl, Bool, true, false, Option, none, some, List, [], ◌∷◌, leb, find, distinct, all,
}
use photogallery.Prelude.Text.{Text}
use photogallery.Exec.{Result, ok, err, pure}
use photogallery.Exec.Ensures.{Ensures, Ensures-pure, Ensures-guard, Ensures-next}
use photogallery.Db.{Album, Photo}
use photogallery.Db.Albums.{album_has_slug}
use photogallery.Storage.{original, StoreError, open_file}
use photogallery.Api.{Env, Server, Reply, ZipFile, no_reply, zip_file, Handler, try_store}
use photogallery.Api.Visitor.Access.{album_access}
use photogallery.Api.Visitor.Pages.Reads.{IsAt}
use photogallery.Api.Visitor.Pages.Files.{open_file-Keeps}
use photogallery.Api.Visitor.Pages.Sending.{try_store-Keeps}
use photogallery.Api.Visitor.Pages.Guarded.{then_access, then_album}
use photogallery.Api.Visitor.Pages.Listed.{then_photos}
use photogallery.Api.Visitor.Download.{
  Seen, max_concurrent_zips, unique_zip_name, zipped, send_entry, add_entry, zip_photos,
  download_album,
}
use photogallery.Api.Visitor.Download.Names.{
  same_name, IfNamed, unique_zip_name-IsNew, AreNamed, grown-AreNamed,
}

-- Why a visitor is sent a zip, and that its entries have different names.
pub record IsZip (env : Env) (s : Server) (running : ℕ) (cookie : Option Text) (slug : Text)
    (z : ZipFile) : Type 0 where
  pub album : Album
  pub named : find (album_has_slug slug) s.db.tables.albums ≡ some album
  pub access : album_access env s cookie album ≡ true
  pub has_slot : leb max_concurrent_zips running ≡ false
  pub are_distinct : distinct (same_name env.to_lower) z.entries ≡ true

abbrev OnlyZip : Env → Server → ℕ → Option Text → Text → Reply → Type 0
OnlyZip env s running cookie slug (zip_file z) = IsZip env s running cookie slug z
OnlyZip env s running cookie slug other = Unit

module _ (env : Env) (s0 : Server) (running : ℕ) (cookie : Option Text) (slug : Text) where
  module _ (a : Album) (filename : Text)
      (named : find (album_has_slug slug) s0.db.tables.albums ≡ some a)
      (access : album_access env s0 cookie a ≡ true)
      (has_slot : leb max_concurrent_zips running ≡ false) where
    abbrev Sends : Handler Reply → Type 0
    Sends m = Ensures (IsAt s0) (OnlyZip env s0 running cookie slug) m

    zipped-Sends :
        (seen : Seen) (entries : List (Text × Text)) (is_whole : Bool)
        → AreNamed env.to_lower seen entries
        → Sends (pure (zipped env filename entries is_whole))
    zipped-Sends seen entries is_whole h = Ensures-pure _ (record {
      album = a;
      named = named;
      access = access;
      has_slot = has_slot;
      are_distinct = h.are_distinct;
    })

    send_entry-Sends :
        (rest : List Bool → Seen → List (Text × Text) → Handler Reply)
        → ((stays : List Bool) (seen : Seen) (entries : List (Text × Text))
            → AreNamed env.to_lower seen entries
            → Sends (rest stays seen entries))
        → (stays : List Bool) (seen : Seen) (entries : List (Text × Text)) (contents : Text)
          (o : Option (Text × Seen))
        → AreNamed env.to_lower seen entries
        → IfNamed env.to_lower seen o
        → Sends (send_entry env filename rest stays entries contents o)
    send_entry-Sends rest k stays seen entries contents none h n = Ensures-pure no_reply tt
    send_entry-Sends rest k (false ∷ stays) seen entries contents (some r) h n =
        zipped-Sends seen entries false h
    send_entry-Sends rest k (true ∷ stays) seen entries contents (some r) h n =
        k stays r.1 _ (grown-AreNamed env.to_lower seen r.1 r.0 contents entries n h)
    send_entry-Sends rest k [] seen entries contents (some r) h n =
        k [] r.1 _ (grown-AreNamed env.to_lower seen r.1 r.0 contents entries n h)

    add_entry-Sends :
        (rest : List Bool → Seen → List (Text × Text) → Handler Reply)
        → ((stays : List Bool) (seen : Seen) (entries : List (Text × Text))
            → AreNamed env.to_lower seen entries
            → Sends (rest stays seen entries))
        → (name : Text) (stays : List Bool) (seen : Seen) (entries : List (Text × Text))
        → AreNamed env.to_lower seen entries
        → (r : Result StoreError Text)
        → Sends (add_entry env filename rest name stays seen entries r)
    add_entry-Sends rest k name stays seen entries h (err e) = k stays seen entries h
    add_entry-Sends rest k name stays seen entries h (ok contents) =
        send_entry-Sends rest k stays seen entries contents (unique_zip_name env.to_lower seen name)
          h (unique_zip_name-IsNew env.to_lower seen name)

    zip_photos-Sends :
        (ps : List Photo) (stays : List Bool) (seen : Seen) (entries : List (Text × Text))
        → AreNamed env.to_lower seen entries
        → Sends (zip_photos env filename a ps stays seen entries)
    unfolding zip_photos
    zip_photos-Sends [] stays seen entries h = zipped-Sends seen entries true h
    zip_photos-Sends (p ∷ ps) stays seen entries h =
        Ensures-next (try_store (open_file env.uuid_canonical a.id p.id original)) _
          (try_store-Keeps s0 _ (open_file-Keeps s0.store env.uuid_canonical a.id p.id original))
          (add_entry-Sends (zip_photos env filename a ps) (zip_photos-Sends ps) p.filename stays
            seen entries h)

    listed-Sends :
        (ps : List Photo) (stays : List Bool) → Sends (zip_photos env filename a ps stays [] [])
    unfolding distinct all
    listed-Sends ps stays =
        zip_photos-Sends ps stays [] [] (record { are_distinct = refl; are_known = refl })

  download_album-Ensures :
      (stays : List Bool)
      → Ensures
          (IsAt s0)
          (OnlyZip env s0 running cookie slug)
          (download_album env running stays cookie slug)
  unfolding download_album
  download_album-Ensures stays =
      search (Ensures-guard, then_album, then_access, then_photos, listed-Sends) depth 20

  -- Whatever statements and system calls fail, and wherever the client leaves: a visitor who is sent a
  -- zip has access to the album with the slug when the request comes, less than two downloads run
  -- then, and no two entries have names that are the same up to case.
  pub download_album-IsZip :
      (stays : List Bool) (z : ZipFile)
      → (download_album env running stays cookie slug s0).0 ≡ ok (zip_file z)
      → IsZip env s0 running cookie slug z
  download_album-IsZip stays z e =
      (download_album-Ensures stays).at s0 (zip_file z)
        (record { tables = refl; sessions = refl; now = refl; files = refl }) e

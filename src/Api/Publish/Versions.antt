-- ===== src/Api/Publish/Versions.antt =====
-- What `updateAlbum` does to the version of an album's password.
pub mod Rows
pub mod Steps
use mathlib.Core.Path.{subst}
use photogallery.Prelude.{
  ◌+◌, ◌≡◌, refl, sym, ap, ◌∙◌, Bool, true, false, not, Option, none, some, List, [], ◌∷◌, arith,
  find, ◌⊎◌, inl, inr,
}
use photogallery.Prelude.Text.{Text}
use photogallery.Exec.{ok, err, gets, ◌>>=◌}
use photogallery.Exec.Keeps.{Keeps, Keeps-pure, Keeps-gets, keeps_rules}
use photogallery.Exec.Ensures.{
  Ensures, Ensures-pure, Ensures-throw, Ensures-if, Ensures-guard, Ensures-next, Ensures-bind,
}
use photogallery.Exec.Reaches.{Reaches, Reaches-Keeps, Reaches-bind, Reaches-first}
use photogallery.Db.{Album, Photo, Folder, Tables}
use photogallery.Db.Albums.{folder_has_id, album_has_id, get_album, update_album}
use photogallery.Db.Photos.{photo_has_id, get_photo}
use photogallery.Db.Folders.{get_folder}
use photogallery.Api.{Env, Server, Reply, Handler, fetch, query, draw}
use photogallery.Api.Input.{Decoded, too_large, malformed, decoded, decode_json, valid_name}
use photogallery.Api.Publish.Albums.{
  AlbumInput, album_not_found, album_from_path, resolve_parent_folder, set_parent, hash_password,
  set_description, set_listed, answer,
}
use photogallery.Api.Publish.Updates.{set_name, set_cover, change_password, update_album_handler}
use photogallery.Api.Visitor.Pages.Reads.{select, IsAt, fetch-select-Keeps, fetch-select-Ensures}
use photogallery.Api.Publish.Versions.Steps.{
  get_photo-At, decode_json-At, valid_name-At, hash_password-At, album_from_path-At,
  album_from_path-Finds, set_name-At, set_description-At, resolve_parent_folder-At, set_parent-At,
  set_cover-At, change_password-At,
}
use photogallery.Api.Publish.Versions.Rows.{
  Bumped, IsNext, kept-IsNext, find-id, update_album-Reaches,
}

-- The steps before the UPDATE leave the row's password alone.
abbrev Same : Album → Album → Type 0
Same old a =
    (a.id ≡ old.id)
    × ((a.password_hash ≡ old.password_hash) × (a.password_version ≡ old.password_version))

Same-Bumped : (old a b : Album) → Same old a → Bumped a b → Bumped old b
Same-Bumped old a b (i, (h, v)) (j, inl (k, w)) = (j ∙ i, inl (k ∙ h, w ∙ v))
Same-Bumped old a b (i, (h, v)) (j, inr w) = (j ∙ i, inr (w ∙ ap (λ n. n + 1) v))

module _ (s0 : Server) (env : Env) (old : Album) where
  abbrev Sames : Handler Album → Type 0
  Sames m = Ensures (IsAt s0) (Same old) m

  set_name-Same : (name : Option Text) (a : Album) → Same old a → Sames (set_name env name a)
  unfolding set_name
  set_name-Same none a h = Ensures-pure a h
  set_name-Same (some raw) a h =
      Ensures-next (valid_name raw) _ (valid_name-At s0 env raw) λ n. Ensures-pure _ h

  set_description-Same : (d : Option Text) (a : Album) → Same old a → Sames (set_description d a)
  set_description-Same none a h = Ensures-pure a h
  set_description-Same (some d) a h = Ensures-if _ _ _ (Ensures-throw _) (Ensures-pure _ h)

  set_listed-Same : (b : Option Bool) (a : Album) → Same old a → Same old (set_listed b a)
  set_listed-Same none a h = h
  set_listed-Same (some b) a h = h

  set_parent-Same : (p : Option Text) (a : Album) → Same old a → Sames (set_parent env p a)
  unfolding set_parent
  set_parent-Same none a h = Ensures-pure a h
  set_parent-Same (some p) a h =
      Ensures-next (resolve_parent_folder env p) _ (resolve_parent_folder-At s0 env p)
        λ f. Ensures-pure _ h

  set_cover-Same : (c : Option Text) (a : Album) → Same old a → Sames (set_cover env c a)
  unfolding set_cover
  set_cover-Same none a h = Ensures-pure a h
  set_cover-Same (some []) a h = Ensures-pure _ h
  set_cover-Same (some (c ∷ id)) a h =
      Ensures-next (fetch (get_photo a.id (c ∷ id)) _) _ (get_photo-At s0 env a.id (c ∷ id) _)
        λ p. Ensures-pure _ h

  kept : (a : Album) → Bumped a a
  kept a = (refl, inl (refl, refl))

  bumped :
      (a : Album) (hash : Text)
      → Bumped a (record a { password_hash = hash; password_version = a.password_version + 1 })
  bumped a hash = (refl, inr refl)

  change_password-Bumped :
      (pw : Option Text) (a : Album) → Ensures (IsAt s0) (Bumped a) (change_password env pw a)
  unfolding change_password
  change_password-Bumped none a = Ensures-pure a (kept a)
  change_password-Bumped (some []) a = search (Ensures-if, Ensures-pure, kept, bumped)
  change_password-Bumped (some (c ∷ pw)) a =
      search (Ensures-if, Ensures-throw, Ensures-pure, Ensures-next, hash_password-At, kept, bumped)
        depth 12

module _ (s0 : Server) (env : Env) (id : Text) (a : Album)
    (found : find (album_has_id id) s0.db.tables.albums ≡ some a) where
  abbrev Ends : Server → Type 0
  Ends s = IsNext id a s.db.tables.albums

  abbrev EndsWell : Handler Reply → Type 0
  EndsWell m = Reaches (IsAt s0) Ends m

  as_before : (s : Server) → IsAt s0 s → Ends s
  as_before s h = rw h.tables (kept-IsNext id a s0.db.tables.albums found)

  stored :
      (old b : Album)
      → find (album_has_id old.id) s0.db.tables.albums ≡ some old
      → Bumped old b
      → EndsWell (query (update_album b) >>= λ u. answer 200 b)
  unfolding query fetch
  stored old b read bumped =
      Reaches-first (query (update_album b)) (λ u. answer 200 b)
        (record {
          at = λ s h.
              (update_album-Reaches id a old b s0.db.tables found read bumped).at s.db h.tables;
        })
        (λ u. Keeps-gets _)

  update_album_handler-EndsWell :
      (album_id : Text) (body : Decoded AlbumInput)
      → EndsWell (update_album_handler env album_id body)
  unfolding update_album_handler
  update_album_handler-EndsWell album_id body =
      Reaches-bind (λ old. find (album_has_id album_id) s0.db.tables.albums ≡ some old)
        (album_from_path env album_id) _ (album_from_path-At s0 env album_id)
        (album_from_path-Finds s0 env album_id) as_before
        λ old read.
          Reaches-bind (λ x. Unit {0}) (decode_json body) _ (decode_json-At s0 env body)
            (record { at = λ s x h e. tt }) as_before
            λ input x.
              Reaches-bind (Same old) (set_name env input.name old) _
                (set_name-At s0 env input.name old)
                (set_name-Same s0 env old input.name old (refl, (refl, refl))) as_before
                λ named n.
                  Reaches-bind (Same old) (set_description input.description named) _
                    (set_description-At s0 env input.description named)
                    (set_description-Same s0 env old input.description named n) as_before
                    λ described d.
                      let l = set_listed-Same s0 env old input.is_listed described d in
                      Reaches-bind (Same old)
                        (set_parent env input.parent_id (set_listed input.is_listed described)) _
                        (set_parent-At s0 env input.parent_id
                          (set_listed input.is_listed described))
                        (set_parent-Same s0 env old input.parent_id
                          (set_listed input.is_listed described) l)
                        as_before
                        λ placed p.
                          Reaches-bind (Same old) (set_cover env input.cover_photo_id placed) _
                            (set_cover-At s0 env input.cover_photo_id placed)
                            (set_cover-Same s0 env old input.cover_photo_id placed p) as_before
                            λ covered c.
                              Reaches-bind (Bumped covered)
                                (change_password env input.password covered) _
                                (change_password-At s0 env input.password covered)
                                (change_password-Bumped s0 env old input.password covered) as_before
                                λ secured b.
                                  Reaches-bind (λ x. Unit {0}) (gets (λ s. s.now)) _ (Keeps-gets _)
                                    (record { at = λ s x h e. tt }) as_before
                                    λ now x.
                                      stored old (record secured { updated_at = now })
                                        (subst
                                          (λ z.
                                            find (album_has_id z) s0.db.tables.albums ≡ some old)
                                          (sym (find-id album_id old s0.db.tables.albums read))
                                          read)
                                        (Same-Bumped old covered secured c b)

-- Whatever statements fail and whatever the request asks for, and for each id of an album in the
-- table, also that of another album than the one that is updated: after an update the id still finds
-- an album, which has the password hash and the version of before, or the next version. So no hash is
-- replaced under the version that sessions were granted.
pub update_album_handler-IsNext :
    (env : Env) (album_id : Text) (body : Decoded AlbumInput) (s : Server) (id : Text) (a : Album)
    → find (album_has_id id) s.db.tables.albums ≡ some a
    → IsNext id a (update_album_handler env album_id body s).1.db.tables.albums
update_album_handler-IsNext env album_id body s id a found =
    (update_album_handler-EndsWell s env id a found album_id body).at s
      (record { tables = refl; sessions = refl; now = refl; files = refl })

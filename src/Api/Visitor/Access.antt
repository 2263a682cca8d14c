-- ===== src/Api/Visitor/Access.antt =====
-- backend/internal/api/access.go: who may see an album's content.
use photogallery.Prelude.{Bool, true, false, Option, none, some, if◌then◌else◌}
use photogallery.Prelude.Text.{Text}
use photogallery.Auth.Session.{granted, decode}
use photogallery.Db.{Album, is_protected}
use photogallery.Api.{Env, Server, unix}

-- `cookie` is the value of the session cookie, if the request has one.
unfoldable pub album_access : Env → Server → Option Text → Album → Bool
album_access env s none a = if is_protected a then false else true
album_access env s (some value) a =
    if is_protected a
    then elim (decode env.crypto s.sessions (unix s) value) [
      | none ↦ false
      | some sess ↦ granted sess a.id a.password_version
    ]
    else true

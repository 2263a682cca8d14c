-- ===== src/Tests/Administering.antt =====
-- The commands of the administrator at concrete inputs.
use photogallery.Prelude.{◌≡◌, refl, none, ◌++◌, arith, take, false, some, [], ◌∷◌, any, find}
use photogallery.Prelude.Text.{Text, bytes, text_dec}
use photogallery.Exec.{pure}
use photogallery.Slug.{read_full}
use photogallery.Auth.Base64.{AreBytes, encode}
use photogallery.Db.{statement}
use photogallery.Db.Keys.{create_api_key}
use photogallery.Api.Publish.Auth.{scheme, generate_api_key, require_api_key}
use photogallery.Api.Publish.Auth.Sound.{Runs}
use photogallery.Admin.Commands.Opens.{create_api_key_command-Runs}
use photogallery.Db.Albums.{get_album_by_slug, update_album}
use photogallery.Api.{Server, Handler, Reply, no_content}
use photogallery.Admin.Commands.{
  admin_query, admin_draw, set_password_command, create_api_key_command, new_api_key,
}
use photogallery.Admin.Commands.Locks.{IsLocked, set_password_command-IsLocked}
use photogallery.Db.Albums.{album_has_slug}
use photogallery.Api.Visitor.Unlock.Opens.{new_cookie}
use photogallery.Tests.Visiting.{session-ReadsBack}
use photogallery.Tests.World.{env, album, world, digest}

-- A new password for the one album.
abbrev secured : Server
secured = (set_password_command env false (some (bytes "new")) (bytes "trip" ∷ []) world).1

album-named : find (album_has_slug (bytes "trip")) world.db.tables.albums ≡ some album
unfolding find text_dec
album-named = refl

set_password_command-IsLocked_example :
    IsLocked env false
      (some (bytes "new"))
      (bytes "trip")
      album
      world
      (new_cookie env world none album)
      secured
unfolding set_password_command admin_query admin_draw get_album_by_slug update_album statement find
    any text_dec
set_password_command-IsLocked_example =
    set_password_command-IsLocked env false (some (bytes "new")) (bytes "trip") world album album
      world world none album-named refl (omega arith) session-ReadsBack refl (omega arith)

-- A server whose random source gives 32 bytes.
abbrev random_bytes : Text
random_bytes = bytes "0123456789abcdef0123456789abcdef"

abbrev seeded : Server
seeded = record world { rand = random_bytes }

abbrev behind : Handler Reply
behind = pure no_content

abbrev printed_key : Text
printed_key = encode random_bytes

random-AreBytes : AreBytes (take 32 random_bytes)
random-AreBytes = (
  omega arith,
  (
    omega arith,
    (
      omega arith,
      (
        omega arith,
        (
          omega arith,
          (
            omega arith,
            (
              omega arith,
              (
                omega arith,
                (
                  omega arith,
                  (
                    omega arith,
                    (
                      omega arith,
                      (
                        omega arith,
                        (
                          omega arith,
                          (
                            omega arith,
                            (
                              omega arith,
                              (
                                omega arith,
                                (
                                  omega arith,
                                  (
                                    omega arith,
                                    (
                                      omega arith,
                                      (
                                        omega arith,
                                        (
                                          omega arith,
                                          (
                                            omega arith,
                                            (
                                              omega arith,
                                              (
                                                omega arith,
                                                (
                                                  omega arith,
                                                  (
                                                    omega arith,
                                                    (
                                                      omega arith,
                                                      (
                                                        omega arith,
                                                        (
                                                          omega arith,
                                                          (
                                                            omega arith,
                                                            (omega arith, (omega arith, tt)),
                                                          ),
                                                        ),
                                                      ),
                                                    ),
                                                  ),
                                                ),
                                              ),
                                            ),
                                          ),
                                        ),
                                      ),
                                    ),
                                  ),
                                ),
                              ),
                            ),
                          ),
                        ),
                      ),
                    ),
                  ),
                ),
              ),
            ),
          ),
        ),
      ),
    ),
  ),
)

create_api_key_command-Runs_example :
    Runs
      (require_api_key digest (scheme ++ printed_key) behind)
      behind
      world
      (create_api_key_command env digest (bytes "laptop") seeded).1.db.tables
unfolding create_api_key_command new_api_key admin_query admin_draw generate_api_key read_full
    create_api_key statement any text_dec encode
create_api_key_command-Runs_example =
    create_api_key_command-Runs env digest (bytes "laptop") seeded random-AreBytes behind world

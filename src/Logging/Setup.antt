-- ===== src/Logging/Setup.antt =====
-- Which level and which file a program ends up with.
use emserver.Base.{
  take-length, le→leb, ℕ, zero, suc, ◌<◌, ◌≡◌, refl, List, [], ◌∷◌, ◌++◌, none, some, Bool, true,
  false, Run, done, ◌>>=◌, Bytes, codes, length, take, ltb, ◌==◌, if◌then◌else◌, Bool-cases, inl,
  inr, arith,
}
use emserver.Api.{Global}
use emserver.Server.{CServer}
use emserver.Logging.{
  Priority, debug, info, warn, error, fatal, Root, CnString, max_value, server_update_loglevel,
  server_update_logpath, add_file_appender, has_appender, eq_bytes, appender_name, path_of,
  set_logging_path,
}

-- The priority of each level.
abbrev pub priority_of : ℕ → Priority
priority_of zero = debug
priority_of (suc zero) = info
priority_of (suc (suc zero)) = warn
priority_of (suc (suc (suc zero))) = error
priority_of _ = fatal

-- server_update_loglevel returns true exactly for the five levels, and then the priority is the
-- level's; for any other number, as without a server, nothing changes.
pub server_update_loglevel_lem :
    (lvl : ℕ) (server : CServer) (root : Root)
    → (server_update_loglevel lvl (some server) root ≡ (
      ltb lvl max_value,
      if ltb lvl max_value then record root { priority = priority_of lvl } else root,
    ))
      × (server_update_loglevel lvl none root ≡ (false, root))
unfolding server_update_loglevel
server_update_loglevel_lem lvl server root = (levels lvl, refl)
  where
    levels :
        (n : ℕ)
        → server_update_loglevel n (some server) root ≡ (
          ltb n max_value,
          if ltb n max_value then record root { priority = priority_of n } else root,
        )
    levels zero = refl
    levels (suc zero) = refl
    levels (suc (suc zero)) = refl
    levels (suc (suc (suc zero))) = refl
    levels (suc (suc (suc (suc zero)))) = refl
    levels (suc (suc (suc (suc (suc n))))) = ground arith

-- A path that can be read: it is not null, and its size is that of its bytes.
abbrev pub path_string : Bytes → CnString
path_string bytes = record { string_data = some bytes; size = length bytes }

pub update_paths : List Bytes → Global → Root → Run Root
update_paths [] g root = done root
update_paths (path ∷ paths) g root =
    server_update_logpath (some (path_string path)) g root >>= λ root'. update_paths paths g root'

-- A text equals itself.
eq_bytes_refl : (bytes : Bytes) → eq_bytes bytes bytes ≡ true
unfolding eq_bytes
eq_bytes_refl [] = refl
eq_bytes_refl (b ∷ bytes) = let rest = eq_bytes_refl bytes in grind arith

has_appender-append :
    (appenders : List (Bytes × Bytes)) (file : Bytes)
    → has_appender appender_name (appenders ++ ((appender_name, file) ∷ [])) ≡ true
unfolding has_appender
has_appender-append [] file = rw (eq_bytes_refl appender_name)
has_appender-append ((n, f) ∷ appenders) file =
    let rest = has_appender-append appenders file in
    elim (Bool-cases (eq_bytes n appender_name)) [ inl y ↦ rw y | inr y ↦ rw (y, rest) ]

-- The log goes to a file in the first directory that is given: later ones change nothing.
add_file_appender_once :
    (file : Bytes) (root : Root)
    → has_appender appender_name root.file_appenders ≡ true
    → add_file_appender file root ≡ root
unfolding add_file_appender
add_file_appender_once file root has = rw has

-- Whether the log has its file.
unfoldable pub has_file : Root → Bool
unfolding has_appender
has_file root = has_appender appender_name root.file_appenders

-- A path that is not empty names the log in that directory.
path_adds :
    (path : Bytes) (server : CServer) (root : Root)
    → 0 < length path
    → server_update_logpath (some (path_string path)) (some server) root
      ≡ done (add_file_appender (path ++ codes "/cnserver.log") root)
unfolding server_update_logpath path_of set_logging_path
path_adds path server root some_path =
    let given : (length path == 0) ≡ false = ground arith in
    let whole : take (length path) path ≡ path = take-length path in
    rw (given, le→leb (length path) (length path) (omega arith), whole)

update_again :
    (paths : List Bytes) (server : CServer) (root : Root)
    → has_file root ≡ true
    → update_paths paths (some server) root ≡ done root
unfolding update_paths has_file server_update_logpath path_of
update_again [] server root has = refl
update_again ([] ∷ paths) server root has = update_again paths server root has
update_again ((b ∷ path) ∷ paths) server root has = rw (
  path_adds (b ∷ path) server root (omega arith),
  add_file_appender_once ((b ∷ path) ++ codes "/cnserver.log") root has,
  update_again paths server root has,
)

-- The log goes to a file in the first directory that is given, and to no other: the ones that are
-- given later change nothing. The first path is not empty, and the log has no file yet.
pub first_path_stays :
    (path : Bytes) (paths : List Bytes) (server : CServer) (root : Root)
    → 0 < length path
    → has_file root ≡ false
    → update_paths (path ∷ paths) (some server) root
      ≡ done (record root {
        file_appenders =
            root.file_appenders ++ ((appender_name, path ++ codes "/cnserver.log") ∷ []);
      })
unfolding update_paths has_file add_file_appender
first_path_stays path paths server root some_path fresh =
    let later = record root {
      file_appenders = root.file_appenders ++ ((appender_name, path ++ codes "/cnserver.log") ∷ []);
    } in
    rw (
      path_adds path server root some_path,
      fresh,
      update_again paths server later
          (has_appender-append root.file_appenders (path ++ codes "/cnserver.log")),
    )

-- ===== src/Testutil/TempDb.antt =====
-- `TempDB` of testutil.go: a database in a temporary file.
use wlt_traffic.Base.{◌≡◌, ◌≢◌, refl, sym, ap, ◌∙◌, false, Option, some, List}
use wlt_traffic.Error.{Error, Result, ok, err}
use wlt_traffic.Storage.Types.{GoString-discrete, GoString}
use wlt_traffic.Storage.Engine.{Engine, Session}
use wlt_traffic.Storage.Open.{open_repository}
use wlt_traffic.Runtime.History.{empty_tables}
use wlt_traffic.Testutil.Ip.{has_name}

-- what testutil.go calls of package os, on the paths of the files that are there
pub record TempFiles : Type 0 where
  -- `os.CreateTemp("", "traffic-count-*.db")`
  pub create_temp : List GoString → Result GoString × List GoString
  -- `os.Remove`, whose error is ignored
  pub remove_file : GoString → List GoString → List GoString

-- what `os` documents, where files can be removed
pub record IsTempFiles (os : TempFiles) : Type 0 where
  -- a new file, and no other
  pub creates :
      (files : List GoString) (path : GoString)
      → (os.create_temp files).0 ≡ ok path
      → (has_name path files ≡ false)
        × ((other : GoString)
            → other ≢ path
            → has_name other (os.create_temp files).1 ≡ has_name other files)
  pub fails :
      (files : List GoString) (x : Error)
      → (os.create_temp files).0 ≡ err x
      → (os.create_temp files).1 ≡ files
  pub removes :
      (files : List GoString) (path : GoString)
      → (has_name path (os.remove_file path files) ≡ false)
        × ((other : GoString)
            → other ≢ path
            → has_name other (os.remove_file path files) ≡ has_name other files)

pub record TempDb : Type 0 where
  pub path : GoString
  -- `none` for nil
  pub repo : Option Session

-- `Close`: the repository is closed and the file removed
unfoldable pub close_temp_db : TempFiles → TempDb → List GoString → List GoString
close_temp_db os db files = os.remove_file db.path files

module _ (e : Engine) (os : TempFiles) where
  abbrev opened_in : GoString → List GoString → Result Session → Result TempDb × List GoString
  opened_in path files (err x) = (err x, os.remove_file path files)
  opened_in path files (ok repo) = (ok (record { path = path; repo = some repo }), files)

  abbrev created : Result GoString × List GoString → Result TempDb × List GoString
  created (err x, files) = (err x, files)
  created (ok path, files) = opened_in path files (open_repository e empty_tables)

  unfoldable pub new_temp_db : List GoString → Result TempDb × List GoString
  new_temp_db files = created (os.create_temp files)

module _ (os : TempFiles) (files : List GoString) where
  -- the same files
  abbrev IsSame : List GoString → Type 0
  IsSame files' = (other : GoString) → has_name other files' ≡ has_name other files

  -- after an error at once, and otherwise once the database is closed
  abbrev pub IsCleared : Result TempDb × List GoString → Type 0
  IsCleared (err x, files') = IsSame files'
  IsCleared (ok db, files') = IsSame (close_temp_db os db files')

module _ (e : Engine) (os : TempFiles) (documented : IsTempFiles os) (files : List GoString) where
  removed-IsSame :
      (path : GoString) (files' : List GoString)
      → has_name path files ≡ false
      → ((other : GoString) → other ≢ path → has_name other files' ≡ has_name other files)
      → IsSame os files (os.remove_file path files')
  removed-IsSame path files' absent others other = elim (GoString-discrete other path) [
    | yes p ↦
        ap (λ s. has_name s (os.remove_file path files')) p
        ∙ (documented.removes files' path).0
        ∙ sym absent
        ∙ ap (λ s. has_name s files) (sym p)
    | no n ↦ (documented.removes files' path).1 other n ∙ others other n
  ]

  opened_in-IsCleared :
      (path : GoString) (files' : List GoString)
      → has_name path files ≡ false
      → ((other : GoString) → other ≢ path → has_name other files' ≡ has_name other files)
      → (r : Result Session) → IsCleared os files (opened_in e os path files' r)
  unfolding close_temp_db
  opened_in-IsCleared path files' absent others (err x) = removed-IsSame path files' absent others
  opened_in-IsCleared path files' absent others (ok repo) = removed-IsSame path files' absent others

  created-IsCleared :
      (x : Result GoString × List GoString)
      → os.create_temp files ≡ x
      → IsCleared os files (created e os x)
  created-IsCleared (err y, files') p = λ other.
      ap (has_name other) (sym (ap (λ z. z.1) p) ∙ documented.fails files y (ap (λ z. z.0) p))
  created-IsCleared (ok path, files') p =
      let (absent, others) = documented.creates files path (ap (λ z. z.0) p) in
      opened_in-IsCleared path files' absent
        (λ other n. ap (λ z. has_name other z.1) (sym p) ∙ others other n)
        (open_repository e empty_tables)

  -- If files are created and removed as `os` documents: an error of `NewTempDB` leaves the files as
  -- they were, whether the file or the database is refused, and so does `Close` after a success.
  pub new_temp_db_lem : IsCleared os files (new_temp_db e os files)
  unfolding new_temp_db
  new_temp_db_lem = created-IsCleared (os.create_temp files) refl

-- ===== src/Migrate.antt =====
-- common/migrate.py: the SQL files are executed in the order of their names, in one transaction.
use job_processing_workflow.Prelude.{
  ◌≡◌, refl, ◌⊎◌, inl, inr, String, Option, some, none, List, [], ◌∷◌, ◌++◌, if◌then◌else◌,
  Option-cases,
}
use Prim.Native.String
use job_processing_workflow.Service.{Exit, returned, raised}
use job_processing_workflow.Worker.Registry.{at_most}

-- A file of the directory: its name and its text.
abbrev pub File : Type 0
File = String × String

abbrev pub insert_file : File → List File → List File
insert_file f [] = f ∷ []
insert_file f (g ∷ gs) = if at_most f.0 g.0 then f ∷ g ∷ gs else g ∷ insert_file f gs

-- `sorted(MIGRATIONS_DIR.glob("*.sql"))`: the paths differ in their names only.
unfoldable pub sorted : List File → List File
sorted [] = []
sorted (f ∷ fs) = insert_file f (sorted fs)

-- What is left of the database, what has been written, and how it ends.
pub record Migrated (D : Type 0) : Type 0 where
  pub database : D
  pub output : List String
  pub exit : Exit

-- `execute` runs the statements of a text in an open transaction; nothing where it raises.
module _ {D : Type 0} (execute : String → D → Option D) where
  -- The loop: the state of the transaction, or nothing once a file has raised, and the lines.
  unfoldable pub apply_all : List File → D → List String → Option D × List String
  apply_all [] d output = (some d, output)
  apply_all ((name, text) ∷ files) d output =
      let lines = output ++ String.◌++◌ "applying " (String.◌++◌ name "\n") ∷ [] in
      elim (execute text d) [ none ↦ (none, lines) | some d' ↦ apply_all files d' lines ]

  -- `run` within `main`: a connection that is left by an exception is rolled back.
  abbrev pub ended : D → Option D × List String → Migrated D
  ended d (none, output) = record { database = d; output = output; exit = raised }
  ended d (some d', output) = record {
    database = d';
    output = output ++ "migrations complete\n" ∷ [];
    exit = returned 0;
  }

  unfoldable pub main : List File → D → Migrated D
  main files d = ended d (apply_all (sorted files) d [])

  -- The database after files that have all been executed, one after the other.
  pub data Applied : List File → D → D → Type 0 where
    none_left : {d : D} → Applied [] d d
    applied :
        {name text : String} {files : List File} {d e f : D}
        → execute text d ≡ some e
        → Applied files e f
        → Applied ((name, text) ∷ files) d f

  -- One of the files raises, after those before it have been executed.
  pub data Breaks : List File → D → Type 0 where
    breaks_now :
        {name text : String} {files : List File} {d : D}
        → execute text d ≡ none
        → Breaks ((name, text) ∷ files) d
    breaks_later :
        {name text : String} {files : List File} {d e : D}
        → execute text d ≡ some e
        → Breaks files e
        → Breaks ((name, text) ∷ files) d

  apply_all_cases :
      (files : List File) (d : D) (output : List String)
      → (((apply_all files d output).0 ≡ none) × Breaks files d)
        ⊎ ((e : D) × ((apply_all files d output).0 ≡ some e) × Applied files d e)
  unfolding apply_all
  apply_all_cases [] d output = inr (d, refl, none_left)
  apply_all_cases ((name, text) ∷ files) d output =
      let lines = output ++ String.◌++◌ "applying " (String.◌++◌ name "\n") ∷ [] in
      elim (Option-cases (execute text d)) [
        | inl fails ↦ rw (apply_all, fails) (inl (refl, breaks_now fails))
        | inr (d', works) ↦ elim (apply_all_cases files d' lines) [
          | inl (broken, b) ↦ rw (apply_all, works) (inl (broken, breaks_later works b))
          | inr (e, done, a) ↦ rw (apply_all, works) (inr (e, done, applied works a))
        ]
      ]

  -- The migrations are all or nothing: every file has been executed, in the order of the names, and
  -- the exit code is 0; or one of them has raised, and the database is as it was.
  pub main-Applied :
      (files : List File) (d : D)
      → let r = main files d in
        ((r.exit ≡ returned 0) × Applied (sorted files) d r.database)
        ⊎ ((r.exit ≡ raised) × (r.database ≡ d) × Breaks (sorted files) d)
  unfolding main
  main-Applied files d =
      let r = apply_all (sorted files) d [] in
      elim (apply_all_cases (sorted files) d []) [
        | inl (broken, b) ↦ rw (main, broken) (inr (refl, refl, b))
        | inr (e, done, a) ↦ rw (main, done) (inl (refl, a))
      ]

-- ===== src/Agent/Context/Order.antt =====
-- Which instruction files are used, and in which order (src/py_code_act/agent/context.py).
use py_code_act.Prelude.{
  ℕ, suc, ◌+◌, ◌≤◌, ◌≡◌, refl, sym, inl, inr, false, Option, none, some, List, [], ◌∷◌, ◌++◌,
  append-nil, append_assoc, arith, Bool-cases, is_some, Text, length, length-append,
}
use py_code_act.Files.{
  member_path, NoRepeat, FilePath, Content, readable, os_error, unicode_error, FileSystem,
  content_of,
}
use py_code_act.Agent.Context.{
  ContextFile, Context, ContextResult, context, unreadable, on_context, ancestor_chain, add_content,
  from_candidates, from_directories, global_context, discover_context_files, context_candidates,
}

-- What holds where no file failed to be read.
abbrev pub OnContext : (Context → Type 0) → ContextResult → Type 0
OnContext P (context c) = P c
OnContext P (unreadable e) = Unit

OnContext-on_context :
    (P Q : Context → Type 0) (r : ContextResult) (f : Context → ContextResult)
    → OnContext P r
    → ((c : Context) → P c → OnContext Q (f c))
    → OnContext Q (on_context r f)
OnContext-on_context P Q (context c) f p k = k c p
OnContext-on_context P Q (unreadable e) f p k = tt

OnContext-weaken :
    (P Q : Context → Type 0) (r : ContextResult)
    → ((c : Context) → P c → Q c)
    → OnContext P r
    → OnContext Q r
OnContext-weaken P Q (context c) f p = f c p
OnContext-weaken P Q (unreadable e) f p = tt

-- The paths of the files, the last file first.
abbrev pub paths_of : List ContextFile → List FilePath
paths_of [] = []
paths_of (f ∷ files) = paths_of files ++ f.path ∷ []

paths_of-append :
    (files : List ContextFile) (f : ContextFile)
    → paths_of (files ++ f ∷ []) ≡ f.path ∷ paths_of files
paths_of-append [] f = refl
paths_of-append (g ∷ files) f = rw (paths_of-append files f) refl

-- No file is used twice.
pub record IsContext (c : Context) : Type 0 where
  pub seen : c.seen ≡ paths_of c.files
  pub different : NoRepeat c.seen

-- At most `n` files are added, behind those that are there.
pub record Adds (n : ℕ) (c r : Context) : Type 0 where
  pub more : List ContextFile
  pub files : r.files ≡ c.files ++ more
  pub few : length more ≤ n

Adds-none : (n : ℕ) (c : Context) → Adds n c c
Adds-none n c = record { more = []; files = sym (append-nil c.files); few = omega arith }

Adds-trans : (m n : ℕ) (c d r : Context) → Adds m c d → Adds n d r → Adds (m + n) c r
Adds-trans m n c d r a b = record {
  more = a.more ++ b.more;
  files = rw (b.files, a.files) (append_assoc c.files a.more b.more);
  few = omega (arith, length-append a.more b.more, a.few, b.few);
}

abbrev Step : Context → Context → Type 0
Step c r = IsContext r × Adds 1 c r

module _ (fs : FileSystem) where
  add_content-Step :
      (c : Context) (path : FilePath) (o : Option Content)
      → IsContext c
      → member_path path c.seen ≡ false
      → OnContext (Step c) (add_content fs c path o)
  add_content-Step c path none h m = tt
  add_content-Step c path (some (os_error e)) h m = tt
  add_content-Step c path (some (unicode_error e)) h m = tt
  add_content-Step c path (some (readable text)) h m = (
    record { seen = rw h.seen (sym (paths_of-append c.files _)); different = (m, h.different) },
    record { more = record { path = path; content = text } ∷ []; files = refl; few = omega arith },
  )

  from_candidates-Step :
      (c : Context) (path : FilePath) (names : List Text)
      → IsContext c
      → OnContext (Step c) (from_candidates fs c path names)
  unfolding from_candidates
  from_candidates-Step c path [] h = (h, Adds-none 1 c)
  from_candidates-Step c path (name ∷ names) h =
      elim (Bool-cases (is_some (content_of (fs.look (name ∷ path))))) [
        | inr other ↦ rw other (from_candidates-Step c path names h)
        | inl here ↦ elim (Bool-cases (member_path (fs.resolve (name ∷ path)) c.seen)) [
          | inl m ↦ rw (here, m) (h, Adds-none 1 c)
          | inr m ↦ rw (here, m) (add_content-Step c (fs.resolve (name ∷ path)) _ h m)
        ]
      ]

  -- Directories add at most one file each, behind the files that are there, and no file is used
  -- twice, unless a file cannot be read.
  pub from_directories-IsContext :
      (c : Context) (paths : List FilePath)
      → IsContext c
      → OnContext (λ r. IsContext r × Adds (length paths) c r) (from_directories fs c paths)
  unfolding from_directories
  from_directories-IsContext c [] h = (h, Adds-none 0 c)
  from_directories-IsContext c (path ∷ paths) h =
      OnContext-on_context (Step c) (λ r. IsContext r × Adds (suc (length paths)) c r)
        (from_candidates fs c path context_candidates) _
        (from_candidates-Step c path context_candidates h)
        (λ d s.
          OnContext-weaken (λ r. IsContext r × Adds (length paths) d r) _ _
            (λ r b. (
              b.0,
              record {
                more = (Adds-trans 1 (length paths) c d r s.1 b.1).more;
                files = (Adds-trans 1 (length paths) c d r s.1 b.1).files;
                few = omega (arith, (Adds-trans 1 (length paths) c d r s.1 b.1).few);
              },
            ))
            (from_directories-IsContext d paths s.0))

  global_context-IsContext :
      (global_file : Option FilePath)
      → OnContext (λ c. IsContext c × (length c.files ≤ 1)) (global_context fs global_file)
  unfolding member_path
  global_context-IsContext none = (record { seen = refl; different = tt }, omega arith)
  global_context-IsContext (some path) = elim (Bool-cases (is_some (content_of (fs.look path)))) [
    | inr other ↦ rw other (record { seen = refl; different = tt }, omega arith)
    | inl here ↦
        let empty : Context = record { files = []; seen = [] } in
        rw here (
          OnContext-weaken (Step empty) (λ c. IsContext c × (length c.files ≤ 1)) _
            (λ c s. (s.0, rw s.1.files s.1.few))
            (add_content-Step empty (fs.resolve path) _ (record { seen = refl; different = tt })
              refl))
  ]

  -- The instruction files are different files, at most one for each directory from the root to the
  -- working directory and a global one, unless a file cannot be read.
  pub discover_context_files-IsContext :
      (cwd : FilePath) (global_file : Option FilePath)
      → OnContext
          (λ r. IsContext r × (length r.files ≤ suc (length (ancestor_chain (fs.resolve cwd)))))
          (discover_context_files fs cwd global_file)
  unfolding discover_context_files
  discover_context_files-IsContext cwd global_file =
      OnContext-on_context (λ c. IsContext c × (length c.files ≤ 1)) _
        (global_context fs global_file) _ (global_context-IsContext global_file)
        (λ c h.
          OnContext-weaken (λ r. IsContext r × Adds (length (ancestor_chain (fs.resolve cwd))) c r)
            _ _
            (λ r b.
              (b.0, rw b.1.files (omega (arith, length-append c.files b.1.more, h.1, b.1.few))))
            (from_directories-IsContext c (ancestor_chain (fs.resolve cwd)) h.0))

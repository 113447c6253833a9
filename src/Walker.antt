-- ===== src/Walker.antt =====
-- LAB_1/dirwalk/src/dirwalker.c: a walk through a directory tree with filters, statistics and a
-- sorted list of paths. A directory is what `readdir`, `lstat` and `opendir` return for it.
pub mod Events
pub mod Flags
pub mod Memory
mod Tests
use os_sp.Prelude.{
  ℕ, zero, suc, ◌+◌, ◌*◌, ◌%◌, ◌^◌, Bool, true, false, ◌&&◌, ◌||◌, not, Option, none, some, List,
  [], ◌∷◌, ◌++◌, leb, ltb, ◌==◌, if◌then◌else◌, length,
}
use os_sp.Prelude.Text.{codes, str_eq}
use os_sp.Message.{Status, success, failure}

abbrev pub Text : Type 0
Text = List ℕ

-- `options_t`, without the default of the directory.
pub record Options : Type 0 where
  pub only_links : Bool
  pub only_dirs : Bool
  pub only_files : Bool
  pub sort_output : Bool
  pub show_stats : Bool

-- `stats_t`. The `int` counters are taken to stay below their bound.
pub record Stats : Type 0 where
  pub total_files : ℕ
  pub total_dirs : ℕ
  pub total_links : ℕ
  pub total_others : ℕ
  pub errors : ℕ
  pub total_size : ℕ

-- What the `S_IS...` tests tell of a mode.
pub data Kind : Type 0 where
  regular directory symlink other : Kind

-- The part of `struct stat` that the program reads.
pub record Stat : Type 0 where
  pub kind : Kind
  pub st_size : ℕ

abbrev pub is_link : Kind → Bool
is_link symlink = true
is_link _ = false

abbrev pub is_dir : Kind → Bool
is_dir directory = true
is_dir _ = false

abbrev pub is_reg : Kind → Bool
is_reg regular = true
is_reg _ = false

pub should_print : Stat → Options → Bool
should_print st opts =
    if not opts.only_links && (not opts.only_dirs && not opts.only_files)
    then true
    else if opts.only_links && is_link st.kind
    then true
    else if opts.only_dirs && is_dir st.kind
    then true
    else opts.only_files && is_reg st.kind

pub update_stats : Stat → Stats → (is_error : Bool) → Stats
update_stats st s is_error =
    if is_error
    then record s { errors = s.errors + 1 }
    else if is_reg st.kind
    then record s {
      total_files = s.total_files + 1;
      total_size = (s.total_size + st.st_size) % 2 ^ 64;
    }
    else if is_dir st.kind
    then record s { total_dirs = s.total_dirs + 1 }
    else if is_link st.kind
    then record s { total_links = s.total_links + 1 }
    else record s { total_others = s.total_others + 1 }

-- `file_list_t`; `count` is the length of `list`.
pub record FileList : Type 0 where
  pub list : List Text
  pub capacity : ℕ

abbrev pub init_file_list : FileList
init_file_list = record { list = []; capacity = 0 }

-- The results of the allocations to come; past its end they all succeed.
abbrev pub Memory : Type 0
Memory = List Bool

abbrev pub allocate : Memory → Bool × Memory
allocate [] = (true, [])
allocate (ok ∷ m) = (ok, m)

-- `strdup` and the write of its result.
pub store_path : FileList → Text → Memory → Status × (FileList × Memory)
store_path files path m =
    let (copied, m') = allocate m in
    if copied
    then (success, (record files { list = files.list ++ path ∷ [] }, m'))
    else (failure, (files, m'))

pub add_to_list : FileList → Text → Memory → Status × (FileList × Memory)
unfolding store_path
add_to_list files path m =
    let new_capacity = if files.capacity == 0 then 1024 else files.capacity * 2 in
    let (grown, m') = allocate m in
    if leb files.capacity (length files.list)
    then if grown
      then store_path (record files { capacity = new_capacity }) path m'
      else (failure, (files, m'))
    else store_path files path m

-- What `readdir` returns for an open directory: for each entry its name, the result of `lstat`, and
-- what a visit finds, that is if `opendir` succeeds, and the entries then.
pub data Listing : Type 0 where
  end_of_dir : Listing
  entry : Text → Option Stat → (opens : Bool) → (inside rest : Listing) → Listing

-- The state that `walk_dir` changes through its pointers, with what it has printed.
pub record Walk : Type 0 where
  pub stats : Stats
  pub files : FileList
  pub printed : List Text
  pub memory : Memory

abbrev pub is_dot : Text → Bool
is_dot name = str_eq name (codes ".") || str_eq name (codes "..")

abbrev pub full_path : Text → Text → Text
full_path path name = path ++ b'/' ∷ name

-- `PATH_MAX`
abbrev pub path_max : ℕ
path_max = 4096

abbrev pub max_depth : ℕ
max_depth = 10000

abbrev pub count_error : Walk → Walk
count_error w = record w { stats = record w.stats { errors = w.stats.errors + 1 } }

abbrev pub keep_path : (descend : Walk → Walk) → Walk → Status × (FileList × Memory) → Walk
keep_path descend w (success, (files, m)) = descend (record w { files = files; memory = m })
keep_path descend w (failure, (files, m)) = record w { files = init_file_list; memory = m }

-- The rest of the loop body after `lstat`; `descend` is the recursive call.
pub visit : Options → Text → Stat → (descend : Walk → Walk) → Walk → Walk
unfolding should_print update_stats add_to_list
visit opts path st descend w =
    let w' = record w { stats = update_stats st w.stats false } in
    let into : Walk → Walk = λ v. if is_dir st.kind then descend v else v in
    if should_print st opts
    then if opts.sort_output
      then keep_path into w' (add_to_list w.files path w.memory)
      else into (record w' { printed = w.printed ++ path ∷ [] })
    else into w'

-- The loop body for an entry that is not a dot.
pub visit_entry : Options → Text → Option Stat → (descend : Walk → Walk) → Walk → Walk
unfolding visit
visit_entry opts path found descend w =
    let known = elim found as (λ _. Walk) [
      | none ↦ count_error w
      | some st ↦ visit opts path st descend w
    ] in
    if leb path_max (length path) then count_error w else known

-- The tests before the loop; `loop` is the loop itself.
pub enter : (depth : ℕ) (opens : Bool) → (loop : Walk → Walk) → Walk → Walk
enter depth opens loop w =
    if ltb max_depth depth then count_error w else if opens then loop w else count_error w

-- The loop of `walk_dir` over the entries of `path`.
pub walk_entries : Options → (path : Text) (depth : ℕ) → Listing → Walk → Walk
unfolding visit_entry enter
walk_entries opts path depth end_of_dir w = w
walk_entries opts path depth (entry name st opens inside rest) w =
    let full = full_path path name in
    let descend = enter (depth + 1) opens (walk_entries opts full (depth + 1) inside) in
    let skipped = walk_entries opts path depth rest w in
    let visited = walk_entries opts path depth rest (visit_entry opts full st descend w) in
    if is_dot name then skipped else visited

pub walk_dir : Options → (path : Text) (depth : ℕ) → (opens : Bool) → Listing → Walk → Walk
unfolding walk_entries enter
walk_dir opts path depth opens listing w =
    enter depth opens (walk_entries opts path depth listing) w

-- The directory itself, before `walk_dir`; the result of `add_to_list` is not looked at.
pub visit_start : Options → Text → Option Stat → Walk → Walk
unfolding should_print update_stats add_to_list
visit_start opts dir none w = w
visit_start opts dir (some st) w =
    let w' = record w { stats = update_stats st w.stats false } in
    let added = (add_to_list w.files dir w.memory).1 in
    if should_print st opts
    then if opts.sort_output
      then record w' { files = added.0; memory = added.1 }
      else record w' { printed = w.printed ++ dir ∷ [] }
    else w'

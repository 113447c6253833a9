-- ===== src/Walker/Tests.antt =====
-- The walker of LAB_1/dirwalk/src/dirwalker.c on concrete inputs.
use os_sp.Prelude.{◌≡◌, refl, true, false, some, none, [], ◌++◌}
use os_sp.Prelude.Text.{codes}
use os_sp.Walker.{
  Options, Stat, regular, directory, init_file_list, should_print, Listing, end_of_dir, entry, Walk,
  walk_dir,
}
use os_sp.Walker.Events.{events, entered, count_events, printed_paths, paths, walk_dir-events}

abbrev sorting : Options
sorting = record {
  only_links = false;
  only_dirs = false;
  only_files = false;
  sort_output = true;
  show_stats = false;
}

abbrev start : Walk
start = record {
  stats = record {
    total_files = 0;
    total_dirs = 0;
    total_links = 0;
    total_others = 0;
    errors = 0;
    total_size = 0;
  };
  files = init_file_list;
  printed = [];
  memory = [];
}

abbrev file : Stat
file = record { kind = regular; st_size = 5 }

abbrev folder : Stat
folder = record { kind = directory; st_size = 0 }

-- A directory with one file, beside a file that `lstat` refuses.
abbrev tree : Listing
tree = entry (codes ".") (some folder) true end_of_dir (
    entry (codes "d") (some folder) true (entry (codes "f") (some file) false end_of_dir end_of_dir)
      (entry (codes "g") none false end_of_dir end_of_dir))

walk_dir-events_example :
    let w' = walk_dir sorting (codes "a") 0 true tree start in
    let es = entered 0 true (events (codes "a") 0 tree) in
    (w'.stats ≡ count_events start.stats es)
    × (paths sorting w' ≡ paths sorting start ++ printed_paths sorting es)
walk_dir-events_example = walk_dir-events sorting (codes "a") 0 true tree start refl

folder-printed : should_print folder sorting ≡ true
unfolding should_print
folder-printed = refl

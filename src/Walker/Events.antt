-- ===== src/Walker/Events.antt =====
-- The walk of LAB_1/dirwalk/src/dirwalker.c against the list of what it meets, while memory lasts.
use os_sp.Prelude.{
  ℕ, ◌+◌, ◌≡◌, refl, ◌∙◌, sym, ap, Bool, false, Bool-cases, inl, inr, Option, none, some, List, [],
  ◌∷◌, ◌++◌, leb, ltb, if◌then◌else◌, length, append_assoc, append-nil, ◌*◌, ◌==◌,
}
use os_sp.Message.{success}
use os_sp.Walker.{
  Text, Options, Stats, Stat, should_print, update_stats, FileList, add_to_list, store_path,
  Listing, end_of_dir, entry, Walk, is_dot, full_path, path_max, max_depth, count_error, visit,
  visit_entry, enter, walk_entries, walk_dir, is_dir,
}

-- What a walk meets: an object with its path, or an error.
pub data Event : Type 0 where
  object : Text → Stat → Event
  error : Event

abbrev pub entered : (depth : ℕ) (opens : Bool) → List Event → List Event
entered depth opens inside =
    if ltb max_depth depth then error ∷ [] else if opens then inside else error ∷ []

-- An object, and below a directory what is inside.
abbrev pub met : Text → Option Stat → (inside : List Event) → List Event
met path found inside =
    let known = elim found as (λ _. List Event) [
      | none ↦ error ∷ []
      | some st ↦ object path st ∷ (if is_dir st.kind then inside else [])
    ] in
    if leb path_max (length path) then error ∷ [] else known

-- The events of a directory in the order of the walk, by the tree alone.
pub events : (path : Text) (depth : ℕ) → Listing → List Event
events path depth end_of_dir = []
events path depth (entry name st opens inside rest) =
    let full = full_path path name in
    let later = events path depth rest in
    let below = events full (depth + 1) inside in
    if is_dot name then later else met full st (entered (depth + 1) opens below) ++ later

-- Every object is counted under its kind, every error as one.
pub count_events : Stats → List Event → Stats
count_events s [] = s
count_events s (object path st ∷ es) = count_events (update_stats st s false) es
count_events s (error ∷ es) = count_events (record s { errors = s.errors + 1 }) es

-- The paths of the objects that the filters let pass.
pub printed_paths : Options → List Event → List Text
printed_paths opts [] = []
printed_paths opts (object path st ∷ es) =
    let later = printed_paths opts es in if should_print st opts then path ∷ later else later
printed_paths opts (error ∷ es) = printed_paths opts es

-- Where the paths go: to the list, or to the output.
abbrev pub paths : Options → Walk → List Text
paths opts w = if opts.sort_output then w.files.list else w.printed

count_events-append :
    (s : Stats) (es fs : List Event)
    → count_events s (es ++ fs) ≡ count_events (count_events s es) fs
unfolding count_events
count_events-append s [] fs = refl
count_events-append s (object path st ∷ es) fs = count_events-append (update_stats st s false) es fs
count_events-append s (error ∷ es) fs =
    count_events-append (record s { errors = s.errors + 1 }) es fs

printed_paths-append :
    (opts : Options) (es fs : List Event)
    → printed_paths opts (es ++ fs) ≡ printed_paths opts es ++ printed_paths opts fs
unfolding printed_paths
printed_paths-append opts [] fs = refl
printed_paths-append opts (object path st ∷ es) fs = elim (Bool-cases (should_print st opts)) [
  | inl e ↦ rw e (ap (◌∷◌ path) (printed_paths-append opts es fs))
  | inr e ↦ rw e (printed_paths-append opts es fs)
]
printed_paths-append opts (error ∷ es) fs = printed_paths-append opts es fs

-- The walk from `w` to `w'` met the events, and memory still lasts.
pub record Walked (opts : Options) (w w' : Walk) (es : List Event) : Type 0 where
  pub counted : w'.stats ≡ count_events w.stats es
  pub listed : paths opts w' ≡ paths opts w ++ printed_paths opts es
  pub memory : w'.memory ≡ []

Walked-append :
    (opts : Options) (u v w : Walk) (es fs : List Event)
    → Walked opts u v es
    → Walked opts v w fs
    → Walked opts u w (es ++ fs)
Walked-append opts u v w es fs a b = record {
  counted =
      b.counted ∙ ap (λ s. count_events s fs) a.counted ∙ sym (count_events-append u.stats es fs);
  listed =
      b.listed
      ∙ ap (λ ps. ps ++ printed_paths opts fs) a.listed
      ∙ append_assoc (paths opts u) (printed_paths opts es) (printed_paths opts fs)
      ∙ ap (λ ps. paths opts u ++ ps) (sym (printed_paths-append opts es fs));
  memory = b.memory;
}

Walked-none : (opts : Options) (w : Walk) → w.memory ≡ [] → Walked opts w w []
unfolding count_events printed_paths
Walked-none opts w m = record {
  counted = refl;
  listed = sym (append-nil (paths opts w));
  memory = m;
}

Walked-error :
    (opts : Options) (w : Walk) → w.memory ≡ [] → Walked opts w (count_error w) (error ∷ [])
unfolding count_events printed_paths
Walked-error opts w m = record {
  counted = refl;
  listed = sym (append-nil (paths opts w));
  memory = m;
}

-- A walk that one knows to meet `inside` from every state.
abbrev Walks : Options → (Walk → Walk) → List Event → Type 0
Walks opts walk es = (w : Walk) → w.memory ≡ [] → Walked opts w (walk w) es

add_to_list-stored :
    (files : FileList) (path : Text)
    → (capacity : ℕ) × (add_to_list files path []
        ≡ (success, (record { list = files.list ++ path ∷ []; capacity = capacity }, [])))
unfolding add_to_list store_path
add_to_list-stored files path = elim (Bool-cases (leb files.capacity (length files.list))) [
  | inl e ↦ (if files.capacity == 0 then 1024 else files.capacity * 2, rw e refl)
  | inr e ↦ (files.capacity, rw e refl)
]

-- The object itself, before its inside: the state that the visit leaves for the descent.
visit-object :
    (opts : Options) (path : Text) (st : Stat) (w : Walk)
    → w.memory ≡ []
    → (v : Walk) × Walked opts w v (object path st ∷ [])
      × ((descend : Walk → Walk)
          → visit opts path st descend w ≡ (if is_dir st.kind then descend v else v))
unfolding visit count_events printed_paths
visit-object opts path st w m = elim (Bool-cases (should_print st opts)) [
  | inl shown ↦ elim (Bool-cases opts.sort_output) [
    | inl sorted ↦
        let (capacity, stored) = add_to_list-stored w.files path in
        (
          record w {
            stats = update_stats st w.stats false;
            files = record { list = w.files.list ++ path ∷ []; capacity = capacity };
            memory = [];
          },
          record { counted = refl; listed = rw (shown, sorted) refl; memory = refl },
          (λ descend. rw (shown, sorted, m, stored) refl),
        )
    | inr direct ↦ (
      record w { stats = update_stats st w.stats false; printed = w.printed ++ path ∷ [] },
      record { counted = refl; listed = rw (shown, direct) refl; memory = m },
      (λ descend. rw (shown, direct) refl),
    )
  ]
  | inr hidden ↦ (
    record w { stats = update_stats st w.stats false },
    record { counted = refl; listed = rw hidden (sym (append-nil (paths opts w))); memory = m },
    (λ descend. rw hidden refl),
  )
]

Walked-object :
    (opts : Options) (path : Text) (st : Stat) (into : Walk → Walk) (w : Walk) (inside : List Event)
    → w.memory ≡ []
    → Walks opts into inside
    → Walked opts w
        (visit opts path st into w)
        (object path st ∷ (if is_dir st.kind then inside else []))
Walked-object opts path st into w inside m k =
    let (v, before, rest) = visit-object opts path st w m in
    elim (Bool-cases (is_dir st.kind)) [
      | inl dir ↦
          rw (rest into, dir)
            (Walked-append opts w v (into v) (object path st ∷ []) inside before
              (k v before.memory))
      | inr leaf ↦ rw (rest into, leaf) before
    ]

Walks-enter :
    (opts : Options) (depth : ℕ) (opens : Bool) (loop : Walk → Walk) (es : List Event)
    → Walks opts loop es
    → Walks opts (enter depth opens loop) (entered depth opens es)
unfolding enter
Walks-enter opts depth opens loop es k w m = elim (Bool-cases (ltb max_depth depth)) [
  | inl deep ↦ rw deep (Walked-error opts w m)
  | inr fine ↦ elim (Bool-cases opens) [
    | inl granted ↦ rw (fine, granted) (k w m)
    | inr closed ↦ rw (fine, closed) (Walked-error opts w m)
  ]
]

Walks-visit_entry :
    (opts : Options) (path : Text) (found : Option Stat) (descend : Walk → Walk)
    (inside : List Event)
    → Walks opts descend inside
    → Walks opts (visit_entry opts path found descend) (met path found inside)
unfolding visit_entry
Walks-visit_entry opts path none descend inside k w m =
    elim (Bool-cases (leb path_max (length path))) [
      | inl long ↦ rw long (Walked-error opts w m)
      | inr fine ↦ rw fine (Walked-error opts w m)
    ]
Walks-visit_entry opts path (some st) descend inside k w m =
    elim (Bool-cases (leb path_max (length path))) [
      | inl long ↦ rw long (Walked-error opts w m)
      | inr fine ↦ rw fine (Walked-object opts path st descend w inside m k)
    ]

Walks-walk_entries :
    (opts : Options) (path : Text) (depth : ℕ) (listing : Listing)
    → Walks opts (walk_entries opts path depth listing) (events path depth listing)
unfolding walk_entries events
Walks-walk_entries opts path depth end_of_dir w m = Walked-none opts w m
Walks-walk_entries opts path depth (entry name st opens inside rest) w m =
    elim (Bool-cases (is_dot name)) [
      | inl dot ↦ rw dot (Walks-walk_entries opts path depth rest w m)
      | inr named ↦
          let full = full_path path name in
          let descend : Walk → Walk =
            enter (depth + 1) opens (walk_entries opts full (depth + 1) inside) in
          let below = entered (depth + 1) opens (events full (depth + 1) inside) in
          let visited : Walked opts w (visit_entry opts full st descend w) (met full st below) =
            Walks-visit_entry opts full st descend below
              (Walks-enter opts (depth + 1) opens (walk_entries opts full (depth + 1) inside)
                (events full (depth + 1) inside) (Walks-walk_entries opts full (depth + 1) inside))
              w m in
          rw named (
            Walked-append opts w (visit_entry opts full st descend w)
              (walk_entries opts path depth rest (visit_entry opts full st descend w))
              (met full st below) (events path depth rest) visited
              (Walks-walk_entries opts path depth rest (visit_entry opts full st descend w)
                visited.memory))
    ]

-- While memory lasts, `walk_dir` counts every object and every error that the tree holds, and
-- prints, or adds to the list if it is to be sorted, exactly the paths that the filters let pass,
-- each as often as the tree has it and in the tree's order.
pub walk_dir-events :
    (opts : Options) (path : Text) (depth : ℕ) (opens : Bool) (listing : Listing) (w : Walk)
    → w.memory ≡ []
    → let w' = walk_dir opts path depth opens listing w in
      let es = entered depth opens (events path depth listing) in
      (w'.stats ≡ count_events w.stats es) × (paths opts w' ≡ paths opts w ++ printed_paths opts es)
unfolding walk_dir
walk_dir-events opts path depth opens listing w m =
    let r =
      Walks-enter opts depth opens (walk_entries opts path depth listing)
        (events path depth listing) (Walks-walk_entries opts path depth listing) w m in
    (r.counted, r.listed)

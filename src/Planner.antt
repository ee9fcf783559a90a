-- ===== src/Planner.antt =====
-- The decision procedure, from crates/mtpx-core/src/planner.rs. `lower` is `str::to_lowercase`,
-- whose Unicode tables are not modelled: every theorem holds for every function in its place.
pub mod Justified
pub mod Index
pub mod Claimed
pub mod Sound
pub mod Subtrees
pub mod Steps
pub mod Refusal
pub mod Coverage
pub mod Above
pub mod Placed
pub mod Parents
use mtpx.Base.{
  ℕ, Bool, true, false, not, ◌&&◌, ◌||◌, List, [], ◌∷◌, ◌++◌, map, Option, none, some, nat_eq, leb,
  ◌==◌, nat_ord, list_ord, if◌then◌else◌, Result, ok, err,
}
use mtpx.Std.Text.{Str}
use mtpx.Path.RelPath.{RelPath, starts_with}
use mtpx.Entry.{Entry, EntryKind, file, dir, kind_eq}
use mtpx.Snapshot
use mtpx.Snapshot.{Snapshot}
use mtpx.Options
use mtpx.Options.{ConflictPolicy, TransferOptions}
use mtpx.Partial.{PartialInfo, matches}
use mtpx.Plan.{
  Action, mkdir, CopyReason, size_differs, SkipReason, identical, conflict, kind_conflict,
  name_collision, Plan, new_plan,
}
use mtpx.Plan
use mtpx.Error.{Error, conflicts}

-- `HashMap` as an association list: the first entry of a key counts.
abbrev pub HashMap : Type 0 → Type 0
HashMap V = List (List Str × V)

unfoldable pub lookup : {V : Type 0} → List Str → HashMap V → Option V
lookup k [] = none
lookup k ((j, v) ∷ m) = if j == k then some v else lookup k m

-- `entry(k).or_insert(v)`
unfoldable pub or_insert : {V : Type 0} → List Str → V → HashMap V → HashMap V
unfolding lookup
or_insert k v m = elim (lookup k m) [ none ↦ (k, v) ∷ m | some w ↦ m ]

abbrev pub Partials : Type 0
Partials = HashMap PartialInfo

pub data NameFolding : Type 0 where
  exact case_insensitive : NameFolding

pub data DestIndex : Type 0 where
  exact_index : Snapshot → DestIndex
  folded : HashMap Entry → DestIndex

abbrev pub is_conflict : Entry → Entry → Bool
is_conflict entry existing =
    not (kind_eq entry.kind existing.kind) || not (nat_eq entry.size existing.size)

-- Zero unless the partial came from this exact object.
abbrev pub resume_offset : Entry → Option PartialInfo → ℕ
resume_offset entry none = 0
resume_offset entry (some partial) =
    if matches partial.fingerprint entry && leb partial.bytes entry.size then partial.bytes else 0

abbrev pub copy : Entry → CopyReason → ℕ → Action
copy entry reason resume_from = Plan.copy entry.path entry.size entry.modified resume_from reason

abbrev pub skip : Entry → SkipReason → Action
skip entry reason = Plan.skip entry.path reason

unfoldable pub decide_conflict : Entry → Option PartialInfo → ConflictPolicy → Action
decide_conflict entry partial Options.skip = skip entry conflict
decide_conflict entry partial Options.fail = copy entry size_differs (resume_offset entry partial)
decide_conflict entry partial Options.source_wins =
    copy entry size_differs (resume_offset entry partial)

unfoldable pub decide_file : Entry → Option Entry → Option PartialInfo → ConflictPolicy → Action
unfolding decide_conflict
decide_file entry none partial policy = copy entry Plan.new (resume_offset entry partial)
decide_file entry (some existing) partial policy =
    if not (kind_eq existing.kind entry.kind)
    then skip entry kind_conflict
    else if not (is_conflict entry existing)
    then skip entry identical
    else decide_conflict entry partial policy

pub data DirDecision : Type 0 where
  make exists blocked : DirDecision

unfoldable pub decide_dir : Option Entry → DirDecision
decide_dir none = make
decide_dir (some existing) = elim existing.kind [ dir ↦ exists | file ↦ blocked ]

pub record Claims : Type 0 where
  pub folding : NameFolding
  pub seen : HashMap EntryKind

abbrev pub new_claims : NameFolding → Claims
new_claims folding = record { folding = folding; seen = [] }

pub record Decider : Type 0 where
  pub claims : Claims
  pub blocked : Option (RelPath × SkipReason)
  pub mkdirs : List Action
  pub files : List Action

-- `into_plan`
unfoldable pub into_plan : Decider → Plan
into_plan d = new_plan (d.mkdirs ++ d.files)

-- The reason that the blocked directory gives, which is forgotten behind its subtree.
unfoldable pub blocking_reason : Decider → RelPath → Decider × Option SkipReason
blocking_reason d path = elim d.blocked [
  | none ↦ (d, none)
  | some (prefix, reason) ↦
      if starts_with path prefix then (d, some reason) else (record d { blocked = none }, none)
]

unfoldable pub refuse : Decider → Entry → SkipReason → Decider
refuse d entry reason = elim entry.kind [
  | dir ↦ record d {
    blocked = some (entry.path, reason);
    files = d.files ++ (skip entry reason ∷ []);
  }
  | file ↦ record d { files = d.files ++ (skip entry reason ∷ []) }
]

module _ (lower : Str → Str) where
  unfoldable pub fold : RelPath → List Str
  fold path = map lower path

  unfoldable pub index_entries : List Entry → HashMap Entry → HashMap Entry
  unfolding fold or_insert
  index_entries [] index = index
  index_entries (e ∷ es) index = index_entries es (or_insert (fold e.path) e index)

  -- `DestIndex::new`
  unfoldable pub new_index : Snapshot → NameFolding → DestIndex
  unfolding index_entries
  new_index dest exact = exact_index dest
  new_index dest case_insensitive = folded (index_entries dest.entries [])

  unfoldable pub get : DestIndex → RelPath → Option Entry
  get (exact_index dest) path = Snapshot.get dest path
  get (folded index) path = lookup (fold path) index

  -- `Claims::collides`
  unfoldable pub collides : Claims → Entry → Claims × Bool
  unfolding fold lookup
  collides c entry = elim c.folding [
    | exact ↦ (c, false)
    | case_insensitive ↦ elim (lookup (fold entry.path) c.seen) [
      | none ↦ (record c { seen = (fold entry.path, entry.kind) ∷ c.seen }, false)
      | some owner ↦ (c, not (kind_eq entry.kind dir && kind_eq owner dir))
    ]
  ]

  unfoldable pub is_some_conflict : Entry → Option Entry → Bool
  is_some_conflict entry none = false
  is_some_conflict entry (some existing) = is_conflict entry existing

  unfoldable pub conflicts_from : DestIndex → Claims → List Entry → List RelPath
  conflicts_from dest claims [] = []
  conflicts_from dest claims (entry ∷ rest) =
      let (claims', collision) = collides claims entry in
      let more = conflicts_from dest claims' rest in
      if collision || is_some_conflict entry (get dest entry.path) then entry.path ∷ more else more

  unfoldable pub collect_conflicts : Snapshot → DestIndex → NameFolding → List RelPath
  collect_conflicts source dest folding = conflicts_from dest (new_claims folding) source.entries

  -- The fields of `Decider` that never change are parameters.
  module _ (dest : DestIndex) (partials : Partials) (policy : ConflictPolicy) where
    unfoldable pub place_dir : Decider → Entry → Option Entry → Decider
    place_dir d entry existing = elim (decide_dir existing) [
      | make ↦ record d { mkdirs = d.mkdirs ++ (mkdir entry.path ∷ []) }
      | exists ↦ d
      | blocked ↦ refuse d entry kind_conflict
    ]

    unfoldable pub place : Decider → Entry → Decider
    place d entry = elim entry.kind [
      | dir ↦ place_dir d entry (get dest entry.path)
      | file ↦ record d {
        files =
            d.files
            ++ (decide_file entry (get dest entry.path) (lookup entry.path partials) policy ∷ []);
      }
    ]

    -- What `decide` does with an entry that no directory blocks.
    unfoldable pub claim : Decider → Entry → Decider
    claim d entry =
        let (claims', collision) = collides d.claims entry in
        let d' = record d { claims = claims' } in
        if collision then refuse d' entry name_collision else place d' entry

    unfoldable pub decide : Decider → Entry → Decider
    unfolding blocking_reason
    decide d entry =
        let (d', found) = blocking_reason d entry.path in
        elim found [
          | some reason ↦ record d' { files = d'.files ++ (skip entry reason ∷ []) }
          | none ↦ claim d' entry
        ]

    unfoldable pub decide_all : Decider → List Entry → Decider
    decide_all d [] = d
    decide_all d (entry ∷ rest) = decide_all (decide d entry) rest

  abbrev pub new_decider : NameFolding → Decider
  new_decider folding = record {
    claims = new_claims folding;
    blocked = none;
    mkdirs = [];
    files = [];
  }

  unfoldable pub decided : Snapshot → DestIndex → NameFolding → Partials → ConflictPolicy → Plan
  decided source dest folding partials policy =
      into_plan (decide_all dest partials policy (new_decider folding) source.entries)

  unfoldable pub refused_or : {Other : Type 0} → List RelPath → Plan → Result Plan (Error Other)
  refused_or [] p = ok p
  refused_or (path ∷ paths) p = err (conflicts (path ∷ paths))

  unfoldable pub plan :
      {Other : Type 0}
      → Snapshot
      → Snapshot
      → NameFolding
      → Partials
      → TransferOptions
      → Result Plan (Error Other)
  plan source dest folding partials opts =
      let index = new_index dest folding in
      let planned = decided source index folding partials opts.conflict in
      elim opts.conflict [
        | Options.fail ↦ refused_or (collect_conflicts source index folding) planned
        | Options.source_wins ↦ ok planned
        | Options.skip ↦ ok planned
      ]

-- ===== src/Watcher/Collapse.antt =====
-- `_collapse_changes`: one change for each path, the strongest.
use openrtc_python.Prelude.{
  ◌≡◌, refl, ap, ◌∙◌, Bool, true, false, ◌&&◌, ◌||◌, Option, none, some, List, [], ◌∷◌, ◌++◌, arith,
  if◌then◌else◌, map,
}
use openrtc_python.Prelude.Text.{Text, text_eq}
use openrtc_python.Prelude.Dict.{put-DistinctKeys, DistinctKeys, Dict, get, get_or, put, get-put}
use openrtc_python.Watcher.{
  ChangeType, created, modified, deleted, FileChange, is_deleted, is_created, any_type, group,
  choose, collapsed_entry, collapse_changes,
}

-- Some change of the path passes the test.
unfoldable pub any_at : Text → (ChangeType → Bool) → List FileChange → Bool
any_at p test [] = false
any_at p test (c ∷ changes) = (text_eq c.path p && test c.change_type) || any_at p test changes

abbrev pub any_kind : ChangeType → Bool
any_kind t = true

-- The change of a path by rank: deleted, else created, else modified, if it has one at all.
abbrev pub strongest : Text → List FileChange → Option ChangeType
strongest p changes =
    if any_at p is_deleted changes
    then some deleted
    else if any_at p is_created changes
    then some created
    else if any_at p any_kind changes
    then some modified
    else none

-- The first change of a path.
unfoldable pub change_at : Text → List FileChange → Option ChangeType
change_at p [] = none
change_at p (c ∷ changes) = if text_eq c.path p then some c.change_type else change_at p changes

-- No path twice.
abbrev pub DistinctPaths : List FileChange → Type 0
DistinctPaths [] = Unit
DistinctPaths (c ∷ changes) = (change_at c.path changes ≡ none) × DistinctPaths changes

any_type-append :
    (test : ChangeType → Bool) (ts us : List ChangeType)
    → any_type test (ts ++ us) ≡ (any_type test ts || any_type test us)
unfolding any_type
any_type-append test [] us = refl
any_type-append test (t ∷ ts) us = ground (arith, any_type-append test ts us)

-- What the grouping holds for a path: what it held, and the changes of that path.
get_or-group :
    (test : ChangeType → Bool) (p : Text) (changes : List FileChange) (d : Dict (List ChangeType))
    → any_type test (get_or p [] (group changes d))
      ≡ (any_type test (get_or p [] d) || any_at p test changes)
unfolding group any_at
get_or-group test p [] d = ground arith
get_or-group test p (c ∷ changes) d =
    let types = get_or c.path [] d in
    get_or-group test p changes (put c.path (types ++ c.change_type ∷ []) d)
    ∙ unfold get_or any_type in
      ground (
        arith,
        get-put c.path p (types ++ c.change_type ∷ []) d,
        any_type-append test types (c.change_type ∷ []),
      )

abbrev has : Option (List ChangeType) → Bool
has none = false
has (some ts) = true

has-group :
    (p : Text) (changes : List FileChange) (d : Dict (List ChangeType))
    → has (get p (group changes d)) ≡ (has (get p d) || any_at p any_kind changes)
unfolding group any_at
has-group p [] d = ground arith
has-group p (c ∷ changes) d =
    let types = get_or c.path [] d in
    has-group p changes (put c.path (types ++ c.change_type ∷ []) d)
    ∙ ground (arith, get-put c.path p (types ++ c.change_type ∷ []) d)

group-DistinctKeys :
    (changes : List FileChange) (d : Dict (List ChangeType))
    → DistinctKeys d
    → DistinctKeys (group changes d)
unfolding group
group-DistinctKeys [] d h = h
group-DistinctKeys (c ∷ changes) d h = group-DistinctKeys changes _ (put-DistinctKeys c.path _ d h)

abbrev chosen : Option (List ChangeType) → Option ChangeType
chosen none = none
chosen (some ts) = some (choose ts)

change_at-entries :
    (p : Text) (d : Dict (List ChangeType)) → change_at p (map collapsed_entry d) ≡ chosen (get p d)
unfolding change_at get
change_at-entries p [] = refl
change_at-entries p ((k, ts) ∷ d) = ground (arith, change_at-entries p d)

entries-DistinctPaths :
    (d : Dict (List ChangeType)) → DistinctKeys d → DistinctPaths (map collapsed_entry d)
entries-DistinctPaths [] h = tt
entries-DistinctPaths ((k, ts) ∷ d) h =
    (change_at-entries k d ∙ ap chosen h.0, entries-DistinctPaths d h.1)

-- A flush reports each changed path once, by the strongest of its changes: deleted, else created,
-- else modified. A path without a change is not reported.
pub collapse_changes-strongest :
    (changes : List FileChange) (p : Text)
    → (change_at p (collapse_changes changes) ≡ strongest p changes)
      × DistinctPaths (collapse_changes changes)
unfolding collapse_changes
collapse_changes-strongest changes p =
    let d = group changes [] in
    (
      change_at-entries p d
          ∙ unfold choose get_or get any_type in
            ground (
              arith,
              get_or-group is_deleted p changes [],
              get_or-group is_created p changes [],
              has-group p changes [],
            ),
      entries-DistinctPaths d (group-DistinctKeys changes [] tt),
    )

-- ===== src/Live/Mirrors.antt =====
-- The mirror directories on the Mac (internal/reconcile/apply_live.go): where they are, what they
-- hold, and the guard over the two sides of a sync session.
use devm.Base.{
  ℕ, zero, suc, ◌+◌, Bool, true, false, ◌||◌, not, Option, none, some, List, [], ◌∷◌, ◌++◌, map,
  nat_beq, ◌==◌, is_nil, length, take, if◌then◌else◌, Bytes, bytes_eq, bytes_ltb,
}
use devm.Base.Int.{pos, int_eq}
use devm.Base.Sort.{sort_by}
use devm.Base.FilePath.{dir_name, join_path}
use devm.Live.World.{
  World, DirEntry, DirReply, absent, unreadable, holds, WalkReply, no_root, walk_failed,
  walked_over, made_dir, listed_dir, walked, verified_head, removed, renamed, mirror_dir, mac_scan,
  mirror_read, mirror_remove, integrity_failed, mirror_rename, M, ◌>>=◌, give, fail, or_fail,
  from_option, ask, ◌>>◌,
}
use devm.Live.Guest.{Side, empty_side}

unfoldable pub mirror_path : World → (project label : Bytes) → Bytes
mirror_path w project label = join_path (w.runtime_dir ∷ project ∷ label ∷ [])

unfoldable pub entry_count : DirReply → Option ℕ
entry_count absent = none
entry_count unreadable = none
entry_count (holds n) = some n

-- `defaultMirrorDir`: the path, and whether nothing is in it.
unfoldable pub default_mirror_dir : World → (project label : Bytes) → M (Bytes × Bool)
default_mirror_dir w project label = do
  let path = mirror_path w project label
  made ← ask (λ t. w.mkdir_all t path) (made_dir path)
  or_fail mirror_dir made
  entries ← ask (λ t. w.dir_entries t path) (listed_dir path)
  count ← from_option mirror_dir (entry_count entries)
  give (path, nat_beq count 0)

unfoldable pub resolve_mirror_path : World → (project label : Bytes) → M Bytes
unfolding default_mirror_dir
resolve_mirror_path w project label = do
  (path, empty) ← default_mirror_dir w project label
  give path

abbrev pub guard_top_sample_limit : ℕ
guard_top_sample_limit = 100

unfoldable pub sample_text : List Bytes → Bytes
sample_text [] = []
sample_text (p ∷ ps) = p ++ (10 ∷ sample_text ps)

unfoldable pub hash_top_sample : (sha256_hex : Bytes → Bytes) → List Bytes → Bytes
unfolding sample_text
hash_top_sample sha256_hex sample = if is_nil sample then [] else sha256_hex (sample_text sample)

unfoldable pub total_size : List DirEntry → ℕ
total_size [] = 0
total_size (e ∷ es) = (if e.is_dir then 0 else e.size) + total_size es

-- What the walk over a mirror says of the Mac's side; the sizes stay inside an int64.
unfoldable pub mac_side_of : (sha256_hex : Bytes → Bytes) → WalkReply → Option Side
unfolding hash_top_sample total_size
mac_side_of sha256_hex no_root = some empty_side
mac_side_of sha256_hex walk_failed = none
mac_side_of sha256_hex (walked_over entries) =
    if is_nil entries
    then some empty_side
    else some (record {
      count = pos (length entries);
      size = pos (total_size entries);
      top_hash =
          hash_top_sample sha256_hex
            (take guard_top_sample_limit (sort_by bytes_ltb (map (λ e. e.path) entries)));
    })

unfoldable pub scan_mac_side : World → Bytes → M Side
scan_mac_side w path = do
  reply ← ask (λ t. w.walk t path) (walked path)
  from_option mac_scan (mac_side_of w.sha256_hex reply)

pub data GuardReason : Type 0 where
  no_reason counts_differ sizes_differ hashes_differ : GuardReason

-- `guardOK`, with the reason of a refusal.
unfoldable pub guard_ok : Side → Side → Bool × GuardReason
guard_ok mac guest =
    if mac.count == pos 0 || guest.count == pos 0
    then (true, no_reason)
    else if not (mac.count == guest.count)
    then (false, counts_differ)
    else if not (mac.size == guest.size)
    then (false, sizes_differ)
    else if not (mac.top_hash == guest.top_hash)
    then (false, hashes_differ)
    else (true, no_reason)

unfoldable pub verify_git_head : World → (label path : Bytes) → M (Unit {0})
verify_git_head w label path = do
  healthy ← ask (λ t. w.head_ok t path) (verified_head path)
  or_fail (integrity_failed label) healthy

unfoldable pub remove_if_empty : World → Bytes → DirReply → M (Unit {0})
remove_if_empty w mirror absent = give tt
remove_if_empty w mirror unreadable = fail mirror_read
remove_if_empty w mirror (holds zero) =
    ask (λ t. w.remove t mirror) (removed mirror) >>= or_fail mirror_remove
remove_if_empty w mirror (holds (suc n)) = give tt

-- A mirror that holds nothing is removed, any other is left alone.
unfoldable pub remove_mirror_if_empty : World → (project label : Bytes) → M (Unit {0})
unfolding resolve_mirror_path
remove_mirror_if_empty w project label = do
  mirror ← resolve_mirror_path w project label
  entries ← ask (λ t. w.dir_entries t mirror) (listed_dir mirror)
  remove_if_empty w mirror entries

-- The mirror of a label moves to the place of another.
unfoldable pub rename_mirror : World → (project old_label new_label : Bytes) → M (Unit {0})
unfolding resolve_mirror_path
rename_mirror w project old_label new_label = do
  old_mirror ← resolve_mirror_path w project old_label
  let new_mirror = join_path (dir_name old_mirror ∷ new_label ∷ [])
  done ← ask (λ t. w.rename t old_mirror new_mirror) (renamed old_mirror new_mirror)
  or_fail mirror_rename done

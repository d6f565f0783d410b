-- ===== src/Capture.antt =====
-- dploydb/subprocesses.py: `_BoundedCapture`, which keeps a bounded head and tail of a stream of bytes,
-- and the draining of a pipe into it. dploydb/health.py has the same class for response bodies,
-- without the marker.
pub mod Laws
use dploy_db.Base.{
  ℕ, ◌+◌, ◌-◌, ◌/◌, Bool, ◌||◌, List, [], ◌∷◌, ◌++◌, ltb, leb, ◌==◌, if◌then◌else◌, length, take,
  drop,
}
use dploy_db.Command.{CapturedOutput}

-- The fields of the object. A byte is a number.
pub record BoundedCapture : Type 0 where
  pub head_limit : ℕ
  pub tail_limit : ℕ
  pub head : List ℕ
  pub tail : List ℕ
  pub total_bytes : ℕ

-- `__init__`
unfoldable pub new_capture : ℕ → BoundedCapture
new_capture limit = record {
  head_limit = limit / 2;
  tail_limit = limit - limit / 2;
  head = [];
  tail = [];
  total_bytes = 0;
}

-- `data[-n:]` for a positive `n`
unfoldable pub last_bytes : ℕ → List ℕ → List ℕ
last_bytes n bytes = drop (length bytes - n) bytes

-- What is added to the head, and what of the data is left.
unfoldable pub fill_head : BoundedCapture → List ℕ → BoundedCapture × List ℕ
fill_head c bytes =
    let head_missing = c.head_limit - length c.head in
    if ltb 0 head_missing
    then (record c { head = c.head ++ take head_missing bytes }, drop head_missing bytes)
    else (c, bytes)

-- The tail after `extend` and the deletion of the overflow.
unfoldable pub extend_tail : ℕ → List ℕ → List ℕ → List ℕ
extend_tail limit tail bytes =
    let extended = tail ++ bytes in
    let overflow = length extended - limit in
    if ltb 0 overflow then drop overflow extended else extended

-- The end of `append`.
unfoldable pub fill_tail : ℕ → List ℕ → List ℕ → List ℕ
unfolding last_bytes extend_tail
fill_tail limit tail bytes =
    if length bytes == 0 || limit == 0
    then tail
    else if leb limit (length bytes)
    then last_bytes limit bytes
    else extend_tail limit tail bytes

-- `append`
unfoldable pub append : BoundedCapture → List ℕ → BoundedCapture
append c bytes =
    let counted = record c { total_bytes = c.total_bytes + length bytes } in
    let (filled, rest) = fill_head counted bytes in
    record filled { tail = fill_tail filled.tail_limit filled.tail rest }

-- `_Reader._drain`, over the chunks that the pipe gives: an empty chunk is its end.
unfoldable pub drain : BoundedCapture → List (List ℕ) → BoundedCapture
drain c [] = c
drain c ([] ∷ chunks) = c
drain c ((b ∷ bs) ∷ chunks) = drain (append c (b ∷ bs)) chunks

-- `_TRUNCATION_MARKER`: "\n...[output truncated]...\n"
abbrev pub truncation_marker : List ℕ
truncation_marker =
    10 ∷ 46 ∷ 46 ∷ 46 ∷ 91 ∷ 111 ∷ 117 ∷ 116 ∷ 112 ∷ 117 ∷ 116 ∷ 32 ∷ 116 ∷ 114 ∷ 117 ∷ 110 ∷ 99
    ∷ 97 ∷ 116 ∷ 101 ∷ 100 ∷ 93 ∷ 46 ∷ 46 ∷ 46 ∷ 10 ∷ []

-- The counts of `snapshot`.
unfoldable pub snapshot : BoundedCapture → CapturedOutput
snapshot c = record {
  total_bytes = c.total_bytes;
  retained_bytes = length c.head + length c.tail;
  truncated = ltb (length c.head + length c.tail) c.total_bytes;
}

-- The bytes of `snapshot` that are decoded and redacted.
unfoldable pub raw_bytes : BoundedCapture → List ℕ
unfolding snapshot
raw_bytes c = c.head ++ (if (snapshot c).truncated then truncation_marker else []) ++ c.tail

-- ===== src/Capture/Laws.antt =====
-- What a bounded capture (dploydb/subprocesses.py) keeps of the stream that was appended to it, in
-- whichever pieces.
use dploy_db.Base.{
  ℕ, zero, suc, ◌+◌, ◌-◌, ◌/◌, ◌≤◌, ◌≡◌, ◌∙◌, sym, refl, true, false, List, [], ◌∷◌, ◌++◌, ltb,
  if◌then◌else◌, length, take, drop, length-append, arith, ap,
}
use mathlib.Core.List.{append-nil, append_assoc}
use dploy_db.Command.{valid_output}
use dploy_db.Capture.{
  BoundedCapture, new_capture, last_bytes, fill_head, extend_tail, fill_tail, append, drain,
  snapshot, raw_bytes,
}

module _ {A : Type 0} where
  take-append : (n : ℕ) (xs ys : List A) → take n (xs ++ ys) ≡ take n xs ++ take (n - length xs) ys
  take-append zero [] ys = refl
  take-append zero (x ∷ xs) ys = ground arith
  take-append (suc n) [] ys = ground arith
  take-append (suc n) (x ∷ xs) ys = ground (arith, take-append n xs ys)

  drop-append : (n : ℕ) (xs ys : List A) → drop n (xs ++ ys) ≡ drop n xs ++ drop (n - length xs) ys
  drop-append zero [] ys = refl
  drop-append zero (x ∷ xs) ys = ground arith
  drop-append (suc n) [] ys = ground arith
  drop-append (suc n) (x ∷ xs) ys = ground (arith, drop-append n xs ys)

  length-drop : (n : ℕ) (xs : List A) → length (drop n xs) ≡ length xs - n
  length-drop zero xs = omega arith
  length-drop (suc n) [] = omega arith
  length-drop (suc n) (x ∷ xs) = omega (arith, length-drop n xs)

  length-take : (n : ℕ) (xs : List A) → length (take n xs) + (length xs - n) ≡ length xs
  length-take zero xs = omega arith
  length-take (suc n) [] = omega arith
  length-take (suc n) (x ∷ xs) = omega (arith, length-take n xs)

  drop-nil : (n : ℕ) → drop {A = A} n [] ≡ []
  drop-nil zero = refl
  drop-nil (suc n) = refl

  drop-suc : (n m : ℕ) (x : A) (xs : List A) → drop (suc n + m) (x ∷ xs) ≡ drop (n + m) xs
  drop-suc n m x xs = let e : suc n + m ≡ suc (n + m) = omega arith in rw e refl

  drop-drop : (m n : ℕ) (xs : List A) → drop m (drop n xs) ≡ drop (n + m) xs
  drop-drop m zero xs = ground arith
  drop-drop m (suc n) [] = drop-nil m ∙ sym (drop-nil (suc n + m))
  drop-drop m (suc n) (x ∷ xs) = drop-drop m n xs ∙ sym (drop-suc n m x xs)

  drop_all : (n : ℕ) (xs : List A) → length xs ≤ n → drop n xs ≡ []
  drop_all n [] h = drop-nil n
  drop_all zero (x ∷ xs) h = ground arith
  drop_all (suc n) (x ∷ xs) h = drop_all n xs (omega arith)

  take-nil : (n : ℕ) → take {A = A} n [] ≡ []
  take-nil zero = refl
  take-nil (suc n) = refl

  take-drop : (n : ℕ) (xs : List A) → take n xs ++ drop n xs ≡ xs
  take-drop zero xs = refl
  take-drop (suc n) [] = refl
  take-drop (suc n) (x ∷ xs) = ap (λ r. x ∷ r) (take-drop n xs)

extend_tail-drop :
    (n : ℕ) (t ys : List ℕ) → extend_tail n t ys ≡ drop (length (t ++ ys) - n) (t ++ ys)
unfolding extend_tail
extend_tail-drop n t ys = by_overflow (length (t ++ ys) - n)
  where
    by_overflow : (k : ℕ) → (if ltb 0 k then drop k (t ++ ys) else t ++ ys) ≡ drop k (t ++ ys)
    by_overflow zero = refl
    by_overflow (suc k) = ground arith

drop_before : (a : ℕ) (xs ys : List ℕ) → a ≤ length xs → drop a (xs ++ ys) ≡ drop a xs ++ ys
drop_before a xs ys h = let e : a - length xs ≡ 0 = omega arith in drop-append a xs ys ∙ rw e refl

-- The last `n` bytes of what is kept and of what comes are the last `n` bytes of all.
extend_tail-last_bytes :
    (n : ℕ) (xs ys : List ℕ)
    → length ys ≤ n
    → extend_tail n (last_bytes n xs) ys ≡ last_bytes n (xs ++ ys)
unfolding last_bytes
extend_tail-last_bytes n xs ys h =
    let a : ℕ = length xs - n in
    let shifted : drop a (xs ++ ys) ≡ drop a xs ++ ys = drop_before a xs ys (omega arith) in
    let total : a + (length (drop a xs ++ ys) - n) ≡ length (xs ++ ys) - n =
      omega (arith, length-append (drop a xs) ys, length-append xs ys, length-drop a xs) in
    extend_tail-drop n (drop a xs) ys
    ∙ ap (λ l. drop (length (drop a xs ++ ys) - n) l) (sym shifted)
    ∙ drop-drop (length (drop a xs ++ ys) - n) a (xs ++ ys)
    ∙ ap (λ k. drop k (xs ++ ys)) total

-- The last bytes of a long second part.
last_bytes-append :
    (n : ℕ) (xs ys : List ℕ) → n ≤ length ys → last_bytes n (xs ++ ys) ≡ last_bytes n ys
unfolding last_bytes
last_bytes-append n xs ys h =
    let past : length (xs ++ ys) - n ≡ length xs + (length ys - n) =
      omega (arith, length-append xs ys) in
    let none_left : drop (length xs + (length ys - n)) xs ≡ [] =
      drop_all (length xs + (length ys - n)) xs (omega arith) in
    let rest : length xs + (length ys - n) - length xs ≡ length ys - n = omega arith in
    ap (λ k. drop k (xs ++ ys)) past
    ∙ drop-append (length xs + (length ys - n)) xs ys
    ∙ rw (none_left, rest) refl

last_bytes-zero : (xs : List ℕ) → last_bytes 0 xs ≡ []
unfolding last_bytes
last_bytes-zero xs = drop_all (length xs - 0) xs (omega arith)

-- One step of the tail.
fill_tail-last_bytes :
    (n : ℕ) (xs ys : List ℕ) → fill_tail n (last_bytes n xs) ys ≡ last_bytes n (xs ++ ys)
unfolding fill_tail
fill_tail-last_bytes n xs [] = rw append-nil refl
fill_tail-last_bytes zero xs (y ∷ ys) =
    ground (arith, last_bytes-zero xs, last_bytes-zero (xs ++ y ∷ ys))
fill_tail-last_bytes (suc n) xs (y ∷ ys) =
    ground
      (arith, last_bytes-append (suc n) xs (y ∷ ys), extend_tail-last_bytes (suc n) xs (y ∷ ys))

-- What is kept of a stream: its first bytes, and the last ones of the others.
abbrev pub kept_of : ℕ → List ℕ → BoundedCapture
kept_of limit stream = record {
  head_limit = limit / 2;
  tail_limit = limit - limit / 2;
  head = take (limit / 2) stream;
  tail = last_bytes (limit - limit / 2) (drop (limit / 2) stream);
  total_bytes = length stream;
}

-- One step of the head, where `missing` is what it still takes.
fill_head-by :
    (c : BoundedCapture) (bytes : List ℕ) (missing : ℕ)
    → c.head_limit - length c.head ≡ missing
    → fill_head c bytes ≡ (record c { head = c.head ++ take missing bytes }, drop missing bytes)
unfolding fill_head
fill_head-by c bytes zero e = rw (e, append-nil) refl
fill_head-by c bytes (suc m) e = rw e (ground arith)

missing_in :
    (limit : ℕ) (stream : List ℕ) → limit - length (take limit stream) ≡ limit - length stream
missing_in limit stream = omega (arith, length-take limit stream)

-- Appending to what is kept of a stream gives what is kept of the longer stream.
append-kept_of :
    (limit : ℕ) (stream bytes : List ℕ)
    → append (kept_of limit stream) bytes ≡ kept_of limit (stream ++ bytes)
unfolding append
append-kept_of limit stream bytes =
    let half : ℕ = limit / 2 in
    let missing : ℕ = half - length stream in
    let filled =
      fill_head-by (record (kept_of limit stream) { total_bytes = length stream + length bytes })
        bytes missing (missing_in half stream) in
    rw filled (
      rw
        (
          take-append half stream bytes,
          drop-append half stream bytes,
          length-append stream bytes,
          fill_tail-last_bytes (limit - half) (drop half stream) (drop missing bytes),
        )
        refl)

-- The bytes that come before the end of the pipe.
abbrev pub received : List (List ℕ) → List ℕ
received [] = []
received ([] ∷ chunks) = []
received ((b ∷ bs) ∷ chunks) = (b ∷ bs) ++ received chunks

drained :
    (limit : ℕ) (stream : List ℕ) (chunks : List (List ℕ))
    → drain (kept_of limit stream) chunks ≡ kept_of limit (stream ++ received chunks)
unfolding drain
drained limit stream [] = rw append-nil refl
drained limit stream ([] ∷ chunks) = rw append-nil refl
drained limit stream ((b ∷ bs) ∷ chunks) =
    ap (λ c. drain c chunks) (append-kept_of limit stream (b ∷ bs))
    ∙ drained limit (stream ++ b ∷ bs) chunks
    ∙ ap (kept_of limit) (append_assoc stream (b ∷ bs) (received chunks))

new_capture-kept_of : (limit : ℕ) → new_capture limit ≡ kept_of limit []
unfolding new_capture last_bytes
new_capture-kept_of limit =
    rw
      (
        take-nil (limit / 2),
        drop-nil (limit / 2),
        drop-nil (length {A = ℕ} [] - (limit - limit / 2)),
      )
      refl

-- Whatever the pieces in which a stream is read: draining it keeps its first `limit / 2` bytes, and
-- of the others the last `limit - limit / 2`, and counts them all.
pub drain-kept_of :
    (limit : ℕ) (chunks : List (List ℕ))
    → drain (new_capture limit) chunks ≡ kept_of limit (received chunks)
drain-kept_of limit chunks =
    ap (λ c. drain c chunks) (new_capture-kept_of limit) ∙ drained limit [] chunks

-- What the evidence of a captured stream says.
pub record Faithful (limit : ℕ) (stream : List ℕ) (c : BoundedCapture) : Type 0 where
  pub bounded : (snapshot c).retained_bytes ≤ limit
  pub counted : (snapshot c).total_bytes ≡ length stream
  pub valid : valid_output (snapshot c) ≡ true
  pub truncated_exactly : (snapshot c).truncated ≡ ltb limit (length stream)
  pub complete : length stream ≤ limit → raw_bytes c ≡ stream

complete_stream :
    (limit : ℕ) (stream : List ℕ)
    → length stream ≤ limit
    → raw_bytes (kept_of limit stream) ≡ stream
unfolding raw_bytes snapshot last_bytes
complete_stream limit stream h =
    let half : ℕ = limit / 2 in
    let rest : List ℕ = drop half stream in
    let first = length-take half stream in
    let after = length-drop half stream in
    let all_kept : length rest - (limit - half) ≡ 0 = omega arith in
    let untruncated : ltb (length (take half stream) + length rest) (length stream) ≡ false =
      ground arith in
    rw (all_kept, untruncated, append-nil) (take-drop half stream)

kept_of-Faithful : (limit : ℕ) (stream : List ℕ) → Faithful limit stream (kept_of limit stream)
unfolding snapshot valid_output raw_bytes last_bytes
kept_of-Faithful limit stream =
    let half : ℕ = limit / 2 in
    let rest : List ℕ = drop half stream in
    let first = length-take half stream in
    let after = length-drop half stream in
    let last = length-drop (length rest - (limit - half)) rest in
    record {
      bounded = omega arith;
      counted = refl;
      valid = ground arith;
      truncated_exactly = ground arith;
      complete = λ h. complete_stream limit stream h;
    }

-- The evidence of a drained stream is within the limit, counts every byte, passes its own validation,
-- reports a truncation exactly where the stream is longer than the limit, and otherwise holds the
-- whole stream unchanged.
pub drain-Faithful :
    (limit : ℕ) (chunks : List (List ℕ))
    → Faithful limit (received chunks) (drain (new_capture limit) chunks)
drain-Faithful limit chunks =
    rw (drain-kept_of limit chunks) (kept_of-Faithful limit (received chunks))

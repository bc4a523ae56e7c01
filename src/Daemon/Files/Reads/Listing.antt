-- ===== src/Daemon/Files/Reads/Listing.antt =====
-- The loop of `readDirLimited` against a plain description of it.
use maid_cafe.Base.{
  ltb, leb, if◌then◌else◌, leb→le, Bool-cases, length, take, drop, length-drop, take-append,
  length-take, take-take, take-all, Result, ok, err, ℕ, zero, suc, ◌+◌, ◌≤◌, ◌<◌, ◌≡◌, refl, ap,
  ◌⊎◌, inl, inr, Bool, true, false, List, [], ◌∷◌, ◌++◌, arith, map_err, ◌≢◌, ◌≢◌, Result-cases,
  length-append,
}
use maid_cafe.Base.Text.{Bytes}
use maid_cafe.Daemon.Files.Host.{
  map_error, Host, Io, DirEntry, Call, looks, ask, pure, after, ◌>>=◌, fail,
}
use maid_cafe.Daemon.Files.Reads.{
  LoopError, gather, gather_more, read_dir_limited, batch_size, unfinished,
}

-- The directory holds these entries: from the place that it has reached, it delivers some of those
-- that follow, at most as many as asked for, and one at least while there are any.
pub record Delivers (host : Host) (root rel : Bytes) (all : List DirEntry) : Type 0 where
  pub batch : List Call → ℕ → ℕ → ℕ
  pub answers :
      (calls : List Call) (k n : ℕ)
      → host.read_dir calls root rel k n ≡ ok (take (batch calls k n) (drop k all))
  pub at_most : (calls : List Call) (k n : ℕ) → batch calls k n ≤ n
  pub there : (calls : List Call) (k n : ℕ) → k ≤ length all → k + batch calls k n ≤ length all
  pub goes_on : (calls : List Call) (k n : ℕ) → k < length all → 0 < n → 0 < batch calls k n

-- what the loop has when it stops
Gathered : ℕ → List DirEntry → Result LoopError (List DirEntry) → Type 0
Gathered limit all found =
    (k : ℕ) × (found ≡ ok (take k all)) × (k ≤ length all) × ((limit < k) ⊎ (k ≡ length all))

gather_more-some :
    (again : List DirEntry → Io LoopError (List DirEntry)) (entries batch : List DirEntry)
    → 0 < length batch
    → gather_more again entries batch ≡ again (entries ++ batch)
unfolding gather_more
gather_more-some again entries [] h = absurd (omega (arith, h))
gather_more-some again entries (e ∷ es) h = refl

batch_size-bounds :
    (limit k : ℕ) → k ≤ limit → (0 < batch_size limit k) × (batch_size limit k + k ≤ limit + 1)
batch_size-bounds limit k h = (ground arith, ground arith)

after-ok :
    {E A B : Type 0} (f : A → Io E B) (answer : Result E A × List Call) (a : A)
    → answer.0 ≡ ok a
    → after f answer ≡ f a answer.1
unfolding after
after-ok f (ok a', calls) a e = let same : a' ≡ a = cc e in rw same refl
after-ok f (err e', calls) a e = cc e

gather-stops :
    (host : Host) (root rel : Bytes) (limit fuel : ℕ) (entries : List DirEntry) (calls : List Call)
    → limit < length entries + fuel
    → (gather host root rel limit fuel entries calls).0 ≢ err unfinished
unfolding gather ◌>>=◌ after pure map_error map_err ask fail gather_more
gather-stops host root rel limit zero entries calls enough h = ground arith
gather-stops host root rel limit (suc fuel) entries calls enough h =
    let k = length entries in
    elim (Bool-cases (ltb limit k)) [
      | inl full ↦ cc (rw (full, gather) at h)
      | inr more ↦ elim (Result-cases (host.read_dir calls root rel k (batch_size limit k))) [
        | inr (e, failed) ↦ cc (rw (more, failed, gather) at h)
        | inl ([], last) ↦ cc (rw (more, last, gather) at h)
        | inl (d ∷ ds, got) ↦
            let again =
              gather-stops host root rel limit fuel (entries ++ (d ∷ ds)) (looks root rel ∷ calls)
                (omega (arith, enough, length-append entries (d ∷ ds))) in
            again (rw (more, got, gather) at h)
      ]
    ]

-- an error after a step that gives none is the one before it
after-err :
    {E A B : Type 0} (f : A → Io E B) (answer : Result E A × List Call) (e : E)
    → ((a : A) (calls : List Call) → (f a calls).0 ≢ err e)
    → (after f answer).0 ≡ err e
    → answer.0 ≡ err e
unfolding after
after-err f (ok a, calls) e never h = absurd (never a calls h)
after-err f (err e', calls) e never h = ap err (cc h)

-- Whatever the system answers, `readDirLimited` stops: it is never left unfinished within its fuel.
pub read_dir_limited-stops :
    (host : Host) (root rel : Bytes) (limit : ℕ) (calls : List Call)
    → (read_dir_limited host root rel limit calls).0 ≢ err unfinished
unfolding read_dir_limited ◌>>=◌ after pure
read_dir_limited-stops host root rel limit calls h =
    gather-stops host root rel limit (limit + 2) [] calls (omega arith) (
      after-err _ (gather host root rel limit (limit + 2) [] calls) unfinished (λ a made e. cc e) h)

-- the cut at the limit of what the loop has
cut-Gathered :
    (limit k : ℕ) (all : List DirEntry)
    → k ≤ length all
    → (limit < k) ⊎ (k ≡ length all)
    → ◌≡◌ {A = List DirEntry × Bool}
        (if ltb limit (length (take k all))
          then (take limit (take k all), true)
          else (take k all, false))
        (take limit all, ltb limit (length all))
cut-Gathered limit k all inside stops =
    let len = length-take k all inside in
    elim (Bool-cases (ltb limit k)) [
      | inl over ↦
          let more : ltb limit (length all) ≡ true = ground (arith, over, inside) in
          rw (len, over, more, take-take limit k all (ground arith)) refl
      | inr under ↦
          let whole : k ≡ length all = ground arith in
          let no_more : ltb limit (length all) ≡ false = ground arith in
          rw (len, under, no_more, take-all k all (ground arith), take-all limit all (ground arith))
            refl
    ]

module _ (host : Host) (root rel : Bytes) (all : List DirEntry)
    (d : Delivers host root rel all) where
  gather-Gathered :
      (limit fuel k : ℕ) (calls : List Call)
      → k ≤ length all
      → k ≤ limit + 1
      → limit + 2 ≤ k + fuel
      → Gathered limit all (gather host root rel limit fuel (take k all) calls).0
  unfolding gather Gathered pure ◌>>=◌ after ask gather_more map_error map_err
  gather-Gathered limit zero k calls inside fits enough = absurd (omega (arith, fits, enough))
  gather-Gathered limit (suc fuel) k calls inside fits enough =
      let len = length-take k all inside in
      let n = batch_size limit k in
      let m = d.batch calls k n in
      let there = d.there calls k n inside in
      let most = d.at_most calls k n in
      elim (Bool-cases (ltb limit k)) [
        | inl full ↦ rw (len, full) (k, refl, inside, inl (ground arith))
        | inr more ↦
            rw (len, more, d.answers calls k n)
              (elim (Bool-cases (leb (length all) k)) [
                | inl last ↦
                    let none_left : m ≡ 0 = omega (arith, there, leb→le (length all) k last) in
                    rw none_left (k, refl, inside, inr (ground arith))
                | inr left ↦
                    let (some_wanted, room) = batch_size-bounds limit k (ground arith) in
                    let some_more = d.goes_on calls k n (ground arith) some_wanted in
                    let size : length (take m (drop k all)) ≡ m =
                      length-take m (drop k all) (omega (arith, length-drop k all, there)) in
                    rw
                      (
                        gather_more-some (gather host root rel limit fuel) (take k all)
                            (take m (drop k all)) (omega (arith, size, some_more)),
                        take-append k m (k + m) all refl,
                      )
                      (gather-Gathered limit fuel (k + m) (looks root rel ∷ calls) there
                        (omega (arith, most, room)) (omega (arith, enough, some_more)))
              ])
      ]

  -- Whatever the sizes of the batches in which the system delivers a directory, `readDirLimited`
  -- stops, and returns its first entries up to the limit, and whether there are more.
  pub read_dir_limited-exact :
      (limit : ℕ) (calls : List Call)
      → (read_dir_limited host root rel limit calls).0 ≡ ok (take limit all, ltb limit (length all))
  unfolding read_dir_limited Gathered ◌>>=◌ after pure
  read_dir_limited-exact limit calls =
      let (k, e, inside, stops) =
        gather-Gathered limit (limit + 2) 0 calls (omega arith) (omega arith) (omega arith) in
      let entries = gather host root rel limit (limit + 2) [] calls in
      rw (after-ok _ entries (take k all) e) (ap ok (cut-Gathered limit k all inside stops))

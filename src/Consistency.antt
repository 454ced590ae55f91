-- ===== src/Consistency.antt =====
-- What holds of the tables at all times, beyond the constraints that PostgreSQL checks: the numbers
-- of the rows, and the counters that the triggers of the schema keep.
mod Counts
pub mod Sequences
mod Changes
mod Inserts
mod Members
pub mod Endpoints
use tdiscuss.Base.{
  ℕ, suc, true, ◌+◌, ◌≤◌, ◌<◌, ◌≡◌, ◌≢◌, List, [], ◌∷◌, map, if◌then◌else◌, Option, none, some, ℤ,
  pos, eq_ℤ, All, length,
}
use tdiscuss.Text.{Text}
use tdiscuss.Store.Tables.{Member, Thread, Post, Board, Db, find, is_some}

-- The numbers ascend, from `lo` on and below `hi`.
abbrev pub Ascending : ℕ → ℕ → List ℤ → Type 0
Ascending lo hi [] = Unit
Ascending lo hi (z ∷ zs) = (n : ℕ) × (z ≡ pos n) × (lo ≤ n) × (n < hi) × Ascending (suc n) hi zs

-- A number that the sequence has given.
abbrev pub IsTaken : ℕ → ℤ → Type 0
IsTaken next z = (n : ℕ) × (z ≡ pos n) × (n < next)

-- How many posts a thread has.
unfoldable pub count_in : ℤ → List Post → ℕ
count_in tid [] = 0
count_in tid (p ∷ ps) =
    let rest = count_in tid ps in if eq_ℤ p.thread_id tid then suc rest else rest

abbrev pub IsCounted : List Post → Thread → Type 0
IsCounted posts t = t.posts ≡ count_in t.id posts

abbrev pub Totals : Option Board → (members threads posts : ℕ) → Type 0
Totals none members threads posts = Unit
Totals (some b) members threads posts =
    (b.total_members ≡ members) × (b.total_threads ≡ threads) × (b.total_thread_posts ≡ posts)

-- A row of the members has the number.
abbrev pub IsMember : List Member → ℤ → Type 0
IsMember ms id = is_some (find (λ m. eq_ℤ m.id id) ms) ≡ true

-- No two are the same.
abbrev pub Apart : List Text → Type 0
Apart [] = Unit
Apart (e ∷ es) = All (λ f. e ≢ f) es × Apart es

-- The numbers of the members, the threads and the posts are different and come from the sequences;
-- members have different addresses and one profile each, in their order; threads and posts belong
-- to members that are there; a post is in a thread whose number was given; a thread's counter is
-- the number of its posts, and the board's counters are those of the rows.
pub record Consistent (db : Db) : Type 0 where
  pub members : Ascending 0 db.next_member (map (λ m. m.id) db.members)
  pub threads : Ascending 0 db.next_thread (map (λ t. t.id) db.threads)
  pub posts : Ascending 0 db.next_post (map (λ p. p.id) db.posts)
  pub parents : All (λ p. IsTaken db.next_thread p.thread_id) db.posts
  pub addresses : Apart (map (λ m. m.email) db.members)
  pub profiles : map (λ q. q.member_id) db.profiles ≡ map (λ m. m.id) db.members
  pub owners : All (λ t. IsMember db.members t.member_id) db.threads
  pub authors : All (λ p. IsMember db.members p.member_id) db.posts
  pub counted : All (IsCounted db.posts) db.threads
  pub totals : Totals db.board (length db.members) (length db.threads) (length db.posts)

-- The sequences go on, and what held still holds.
pub record Advances (a b : Db) : Type 0 where
  pub next_member : a.next_member ≤ b.next_member
  pub next_thread : a.next_thread ≤ b.next_thread
  pub next_post : a.next_post ≤ b.next_post
  pub consistent : Consistent a → Consistent b

-- ===== src/Access/Rows.antt =====
-- Changes of one table, as changes of the database.
use tdiscuss.Base.{ℕ, ◌≡◌, inl, inr, Bool, true, Bool-cases, List, [], ◌∷◌, Option, Grows}
use tdiscuss.Store.Tables.{Member, Profile, Thread, Post, Db, Board, update_where}
use tdiscuss.Web.{User}
use tdiscuss.Access.{
  MemberStep, ProfileStep, ThreadStep, PostStep, NewThread, NewPost, BoardStep, Change,
}
use tdiscuss.Access.Order.{Change-refl}

pub Grows-update_where :
    {A : Type 0} (R : A → A → Type 0) (S : A → Type 0) (p : A → Bool) (f : A → A) (xs : List A)
    → ((x : A) → R x x)
    → ((x : A) → p x ≡ true → R x (f x))
    → Grows R S xs (update_where p f xs)
unfolding update_where
Grows-update_where R S p f [] same moved = tt
Grows-update_where R S p f (x ∷ xs) same moved =
    let rest = Grows-update_where R S p f xs same moved in
    elim (Bool-cases (p x)) [
      | inl hit ↦ rw hit (moved x hit, rest)
      | inr kept ↦ rw kept (same x, rest)
    ]

module _ (user : Option User) (now : ℕ) (a : Db) (e : a.now ≡ now) where
  pub members_changed :
      (ms : List Member)
      → Grows (MemberStep user now) (λ m. ⊥) a.members ms
      → Change user now a (record a { members = ms })
  members_changed ms g =
      let c = Change-refl user now a e in
      record {
        members = g;
        profiles = c.profiles;
        threads = c.threads;
        posts = c.posts;
        board = c.board;
        clock = e;
      }

  pub profiles_changed :
      (ps : List Profile)
      → Grows (ProfileStep user now) (λ m. ⊥) a.profiles ps
      → Change user now a (record a { profiles = ps })
  profiles_changed ps g =
      let c = Change-refl user now a e in
      record {
        members = c.members;
        profiles = g;
        threads = c.threads;
        posts = c.posts;
        board = c.board;
        clock = e;
      }

  pub threads_changed :
      (ts : List Thread)
      → Grows (ThreadStep user now) (NewThread user now) a.threads ts
      → Change user now a (record a { threads = ts })
  threads_changed ts g =
      let c = Change-refl user now a e in
      record {
        members = c.members;
        profiles = c.profiles;
        threads = g;
        posts = c.posts;
        board = c.board;
        clock = e;
      }

  pub posts_changed :
      (ps : List Post)
      → Grows (PostStep user now) (NewPost user now) a.posts ps
      → Change user now a (record a { posts = ps })
  posts_changed ps g =
      let c = Change-refl user now a e in
      record {
        members = c.members;
        profiles = c.profiles;
        threads = c.threads;
        posts = g;
        board = c.board;
        clock = e;
      }

  pub board_changed :
      (b : Option Board) → BoardStep user now a.board b → Change user now a (record a { board = b })
  board_changed b g =
      let c = Change-refl user now a e in
      record {
        members = c.members;
        profiles = c.profiles;
        threads = c.threads;
        posts = c.posts;
        board = g;
        clock = e;
      }

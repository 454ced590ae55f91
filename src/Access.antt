-- ===== src/Access.antt =====
-- Who may change what: how the database after a request relates to the one before it.
pub mod Order
mod Reading
pub mod Safe
pub mod Atomic
mod Rows
mod Statements
pub mod Permits
pub mod Handled
pub mod Endpoints
use tdiscuss.Base.{ℕ, ◌≡◌, refl, ◌⊎◌, inl, inr, true, List, Option, none, some, ℤ, Grows}
use tdiscuss.Store.Tables.{Member, Profile, Thread, Post, Board, Db}
use tdiscuss.Store.Members.{block}
use tdiscuss.Store.Threads.{in_window, set_body}
use tdiscuss.Web.{User}

-- The request is made by the member `id`.
abbrev pub Acts : Option User → ℤ → Type 0
Acts none id = ⊥
Acts (some u) id = u.id ≡ id

-- The request is made by an administrator.
abbrev pub IsAdmin : Option User → Type 0
IsAdmin none = ⊥
IsAdmin (some u) = u.is_admin ≡ true

module _ (user : Option User) (now : ℕ) where
  abbrev pub MemberStep : Member → Member → Type 0
  MemberStep m n = (n ≡ m) ⊎ (IsAdmin user × (n ≡ block m))

  abbrev pub ProfileStep : Profile → Profile → Type 0
  ProfileStep p q = (q ≡ p) ⊎ (Acts user p.member_id × (q.member_id ≡ p.member_id))

  -- Counters, the last poster and the last date follow the posts; the subject is the owner's, for
  -- the fifteen minutes of the window.
  pub record ThreadStep (t u : Thread) : Type 0 where
    pub id : u.id ≡ t.id
    pub member_id : u.member_id ≡ t.member_id
    pub date_posted : u.date_posted ≡ t.date_posted
    pub views : u.views ≡ t.views
    pub sticky : u.sticky ≡ t.sticky
    pub locked : u.locked ≡ t.locked
    pub subject :
        (u.subject ≡ t.subject) ⊎ (Acts user t.member_id × (in_window now t.date_posted ≡ true))

  abbrev pub PostStep : Post → Post → Type 0
  PostStep p q =
      (q ≡ p)
      ⊎ (Acts user p.member_id × (in_window now p.date_posted ≡ true) × (q ≡ set_body q.body p))

  abbrev pub NewThread : Thread → Type 0
  NewThread t = Acts user t.member_id × (t.date_posted ≡ now)

  abbrev pub NewPost : Post → Type 0
  NewPost p = Acts user p.member_id × (p.date_posted ≡ now)

  abbrev pub BoardStep : Option Board → Option Board → Type 0
  BoardStep none none = Unit
  BoardStep (some b) (some c) =
      ((c.title ≡ b.title) × (c.edit_window ≡ b.edit_window)) ⊎ IsAdmin user
  BoardStep _ _ = ⊥

  pub record Change (a b : Db) : Type 0 where
    pub members : Grows MemberStep (λ m. ⊥) a.members b.members
    pub profiles : Grows ProfileStep (λ p. ⊥) a.profiles b.profiles
    pub threads : Grows ThreadStep NewThread a.threads b.threads
    pub posts : Grows PostStep NewPost a.posts b.posts
    pub board : BoardStep a.board b.board
    pub clock : b.now ≡ now

-- What a request of `user` may do to the database `a`.
abbrev pub Allowed : Option User → Db → Db → Type 0
Allowed user a b = (now : ℕ) → a.now ≡ now → Change user now a b

-- ===== src/Access/Order.antt =====
-- The changes allowed to one user compose.
use tdiscuss.Base.{ℕ, ◌≡◌, refl, inl, Option, none, some, arith, Grows-refl, Grows-trans}
use tdiscuss.Store.Tables.{Member, Profile, Thread, Post, Board, Db}
use tdiscuss.Web.{User}
use tdiscuss.Web.Keeps.{IsPreorder, AllowsFaults}
use tdiscuss.Access.{
  MemberStep, ProfileStep, ThreadStep, PostStep, NewThread, NewPost, BoardStep, Change, Allowed,
}

module _ (user : Option User) (now : ℕ) where
  MemberStep-trans :
      (x y z : Member) → MemberStep user now x y → MemberStep user now y z → MemberStep user now x z
  MemberStep-trans x y z h g = ground arith

  ProfileStep-trans :
      (x y z : Profile)
      → ProfileStep user now x y
      → ProfileStep user now y z
      → ProfileStep user now x z
  ProfileStep-trans x y z h g = ground arith

  ThreadStep-trans :
      (x y z : Thread) → ThreadStep user now x y → ThreadStep user now y z → ThreadStep user now x z
  ThreadStep-trans x y z h g = ground arith

  PostStep-trans :
      (x y z : Post) → PostStep user now x y → PostStep user now y z → PostStep user now x z
  PostStep-trans x y z h g = ground arith

  NewThread-step :
      (x y : Thread) → NewThread user now x → ThreadStep user now x y → NewThread user now y
  NewThread-step x y h g = ground arith

  NewPost-step : (x y : Post) → NewPost user now x → PostStep user now x y → NewPost user now y
  NewPost-step x y h g = ground arith

  BoardStep_trans :
      (x y z : Option Board)
      → BoardStep user now x y
      → BoardStep user now y z
      → BoardStep user now x z
  BoardStep_trans none none none h g = tt
  BoardStep_trans (some x) (some y) (some z) h g = ground arith
  BoardStep_trans none none (some z) h g = g
  BoardStep_trans none (some y) z h g = elim h [ ]
  BoardStep_trans (some x) none z h g = elim h [ ]
  BoardStep_trans (some x) (some y) none h g = elim g [ ]

  pub ThreadStep-refl : (t : Thread) → ThreadStep user now t t
  ThreadStep-refl t = ground arith

  pub BoardStep_refl : (b : Option Board) → BoardStep user now b b
  BoardStep_refl none = tt
  BoardStep_refl (some b) = inl (refl, refl)

  pub Change-refl : (a : Db) → a.now ≡ now → Change user now a a
  Change-refl a e = record {
    members = Grows-refl (MemberStep user now) (λ m. ⊥) (λ m. inl refl) a.members;
    profiles = Grows-refl (ProfileStep user now) (λ m. ⊥) (λ m. inl refl) a.profiles;
    threads = Grows-refl (ThreadStep user now) (NewThread user now) ThreadStep-refl a.threads;
    posts = Grows-refl (PostStep user now) (NewPost user now) (λ p. inl refl) a.posts;
    board = BoardStep_refl a.board;
    clock = e;
  }

  Change-trans : (a b c : Db) → Change user now a b → Change user now b c → Change user now a c
  Change-trans a b c h g = record {
    members =
        Grows-trans (MemberStep user now) (λ m. ⊥) MemberStep-trans (λ x y e s. e) a.members
          b.members c.members h.members g.members;
    profiles =
        Grows-trans (ProfileStep user now) (λ m. ⊥) ProfileStep-trans (λ x y e s. e) a.profiles
          b.profiles c.profiles h.profiles g.profiles;
    threads =
        Grows-trans (ThreadStep user now) (NewThread user now) ThreadStep-trans NewThread-step
          a.threads b.threads c.threads h.threads g.threads;
    posts =
        Grows-trans (PostStep user now) (NewPost user now) PostStep-trans NewPost-step a.posts
          b.posts c.posts h.posts g.posts;
    board = BoardStep_trans a.board b.board c.board h.board g.board;
    clock = g.clock;
  }

Allowed-order : (user : Option User) → IsPreorder (Allowed user)
Allowed-order user = record {
  same = λ db now e. Change-refl user now db e;
  after = λ a b c h g now e.
      let first = h now e in Change-trans user now a b c first (g now first.clock);
}

pub Allowed-faults : (user : Option User) → AllowsFaults (Allowed user)
Allowed-faults user = record {
  order = Allowed-order user;
  passed = λ db now e.
      let c = Change-refl user now db e in
      record {
        members = c.members;
        profiles = c.profiles;
        threads = c.threads;
        posts = c.posts;
        board = c.board;
        clock = e;
      };
  undone = λ before db _ now e.
      let c = Change-refl user now before e in
      record {
        members = c.members;
        profiles = c.profiles;
        threads = c.threads;
        posts = c.posts;
        board = c.board;
        clock = e;
      };
}

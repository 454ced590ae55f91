-- ===== src/Consistency/Sequences.antt =====
-- Sequences that go on, failed calls and rollbacks.
use tdiscuss.Base.{ℕ, ◌≤◌, ◌≡◌, ℤ, arith}
use tdiscuss.Store.Tables.{Db, spent}
use tdiscuss.Web.Keeps.{AllowsFaults}
use tdiscuss.Consistency.{IsTaken, Consistent, Advances}
use tdiscuss.Consistency.Counts.{Ascending-weaken, All-map}

-- The number of a later sequence is taken too.
IsTaken-later : (a b : ℕ) → a ≤ b → (z : ℤ) → IsTaken a z → IsTaken b z
IsTaken-later a b le z (n, e, h) = (n, e, omega arith)

-- The same tables, with sequences that have gone on.
pub Consistent-later :
    (a b : Db)
    → a.next_member ≤ b.next_member
    → a.next_thread ≤ b.next_thread
    → a.next_post ≤ b.next_post
    → Consistent a
    → Consistent (record a {
      next_member = b.next_member;
      next_thread = b.next_thread;
      next_post = b.next_post;
      last_thread = b.last_thread;
      faults = b.faults;
    })
Consistent-later a b m t p c = record {
  members = Ascending-weaken 0 a.next_member b.next_member _ m c.members;
  threads = Ascending-weaken 0 a.next_thread b.next_thread _ t c.threads;
  posts = Ascending-weaken 0 a.next_post b.next_post _ p c.posts;
  parents =
      All-map _ _ (λ q. IsTaken-later a.next_thread b.next_thread t q.thread_id) a.posts c.parents;
  addresses = c.addresses;
  profiles = c.profiles;
  owners = c.owners;
  authors = c.authors;
  counted = c.counted;
  totals = c.totals;
}

pub Advances-same : (db : Db) → Advances db db
Advances-same db = record {
  next_member = omega arith;
  next_thread = omega arith;
  next_post = omega arith;
  consistent = λ c. c;
}

Advances-after : (a b c : Db) → Advances a b → Advances b c → Advances a c
Advances-after a b c h g = record {
  next_member = omega (arith, h.next_member, g.next_member);
  next_thread = omega (arith, h.next_thread, g.next_thread);
  next_post = omega (arith, h.next_post, g.next_post);
  consistent = λ k. g.consistent (h.consistent k);
}

pub Advances-faults : AllowsFaults Advances
Advances-faults = record {
  order = record { same = Advances-same; after = Advances-after };
  passed = λ db. record {
    next_member = omega arith;
    next_thread = omega arith;
    next_post = omega arith;
    consistent = λ c. Consistent-later db (spent db) (omega arith) (omega arith) (omega arith) c;
  };
  undone = λ before db h. record {
    next_member = h.next_member;
    next_thread = h.next_thread;
    next_post = h.next_post;
    consistent = Consistent-later before db h.next_member h.next_thread h.next_post;
  };
}

-- A change of the tables that leaves the sequences alone.
pub standing :
    (a b : Db)
    → b.next_member ≡ a.next_member
    → b.next_thread ≡ a.next_thread
    → b.next_post ≡ a.next_post
    → (Consistent a → Consistent b)
    → Advances a b
standing a b m t p k = record {
  next_member = omega (arith, m);
  next_thread = omega (arith, t);
  next_post = omega (arith, p);
  consistent = k;
}

-- ===== src/Consistency/Inserts.antt =====
-- The statements that add threads and posts keep the tables consistent.
use tdiscuss.Base.{
  ℕ, suc, ◌+◌, ◌≡◌, refl, true, false, List, [], ◌∷◌, ◌++◌, map, if◌then◌else◌, Option, none, some,
  ℤ, pos, eq_ℤ, eq_ℤ_iff, All, All-append, length, length-append, arith, Bool-cases, inl, inr, sym,
  ◌∙◌,
}
use mathlib.Core.Path.{subst}
use tdiscuss.Store.Tables.{
  Thread, Post, Board, Db, map_board, find, has_thread, thread_by_id, is_some, has_member,
  member_by_id,
}
use tdiscuss.Store.Threads.{
  CreateThreadParams, CreateThreadPostParams, count_thread, count_post, new_thread, insert_thread,
  take_thread_id, may_insert_thread, try_insert_thread, create_thread, new_post, insert_post,
  take_post_id, may_insert_post, try_insert_post, create_thread_post, bump_thread,
}
use tdiscuss.Web.Keeps.{KeepsQuery, Keeps-call}
use tdiscuss.Consistency.{Ascending, IsTaken, IsMember, count_in, IsCounted, Totals, Advances}
use tdiscuss.Consistency.Counts.{
  Ascending-snoc, map-append, map-update_where, length-update_where, All-update_where,
  count_in-snoc,
}
use tdiscuss.Consistency.Sequences.{Consistent-later, Advances-faults}

-- A sequence that has gone on by itself.
taken-thread : (db : Db) → Advances db (take_thread_id db)
taken-thread db = record {
  next_member = omega arith;
  next_thread = omega arith;
  next_post = omega arith;
  consistent = Consistent-later db (take_thread_id db) (omega arith) (omega arith) (omega arith);
}

taken-post : (db : Db) → Advances db (take_post_id db)
taken-post db = record {
  next_member = omega arith;
  next_thread = omega arith;
  next_post = omega arith;
  consistent = Consistent-later db (take_post_id db) (omega arith) (omega arith) (omega arith);
}

-- No post is in a thread whose number was not given yet.
count_in-fresh :
    (next : ℕ) (ps : List Post)
    → All (λ p. IsTaken next p.thread_id) ps
    → count_in (pos next) ps ≡ 0
unfolding count_in
count_in-fresh next [] h = refl
count_in-fresh next (p ∷ ps) ((n, e, l), h) = rw e (ground (arith, count_in-fresh next ps h))

Totals-thread :
    (b : Option Board) (m t p : ℕ) → Totals b m t p → Totals (map_board count_thread b) m (t + 1) p
Totals-thread none m t p h = tt
Totals-thread (some b) m t p h = (h.0, omega (arith, h.1), h.2)

Totals-post :
    (b : Option Board) (m t p : ℕ) → Totals b m t p → Totals (map_board count_post b) m t (p + 1)
Totals-post none m t p h = tt
Totals-post (some b) m t p h = (h.0, h.1, omega (arith, h.2))

inserted-thread :
    (arg : CreateThreadParams) (db : Db)
    → has_member arg.member_id db ≡ true
    → Advances db (insert_thread arg db)
unfolding has_member member_by_id
inserted-thread arg db owner = record {
  next_member = omega arith;
  next_thread = omega arith;
  next_post = omega arith;
  consistent = λ c.
      let later = (taken-thread db).consistent c in
      record {
        members = c.members;
        threads =
            subst (Ascending 0 (suc db.next_thread))
              (sym (map-append (λ (t : Thread). t.id) db.threads (new_thread arg db ∷ [])))
              (Ascending-snoc 0 db.next_thread _ (omega arith) c.threads);
        posts = c.posts;
        parents = later.parents;
        addresses = c.addresses;
        profiles = c.profiles;
        owners =
            All-append (λ (t : Thread). IsMember db.members t.member_id) db.threads
              (new_thread arg db ∷ []) c.owners (owner, tt);
        authors = c.authors;
        counted =
            All-append (IsCounted db.posts) db.threads (new_thread arg db ∷ []) c.counted
              (sym (count_in-fresh db.next_thread db.posts c.parents), tt);
        totals =
            subst
              (λ n.
                Totals (map_board count_thread db.board) (length db.members) n (length db.posts))
              (sym (length-append db.threads (new_thread arg db ∷ [])))
              (Totals-thread db.board _ _ _ c.totals);
      };
}

pub create_thread-Advances : (arg : CreateThreadParams) → KeepsQuery Advances (create_thread arg)
unfolding create_thread
create_thread-Advances arg = Keeps-call Advances-faults (try_insert_thread arg) λ db.
    elim (Bool-cases (may_insert_thread arg db)) [
      | inl good ↦ rw good (inserted-thread arg db (ground (arith, good)))
      | inr bad ↦ rw bad (taken-thread db)
    ]

-- A thread that is found has a number that was given.
found-IsTaken :
    (lo hi : ℕ) (id : ℤ) (ts : List Thread)
    → Ascending lo hi (map (λ t. t.id) ts)
    → is_some (find (λ t. eq_ℤ t.id id) ts) ≡ true
    → IsTaken hi id
unfolding find
found-IsTaken lo hi id [] a h = ground arith
found-IsTaken lo hi id (t ∷ ts) (n, e, l, below, a) h = elim (Bool-cases (eq_ℤ t.id id)) [
  | inl hit ↦ (n, sym ((eq_ℤ_iff t.id id).0 hit) ∙ e, below)
  | inr miss ↦
      found-IsTaken (suc n) hi id ts a
        (subst (λ b. is_some (if b then some t else find (λ t. eq_ℤ t.id id) ts) ≡ true) miss h)
]

bumped :
    (tid : ℤ) (p : Post) (ps ps' : List Post) (now : ℕ) (t : Thread)
    → p.thread_id ≡ tid
    → eq_ℤ t.id tid ≡ true
    → IsCounted ps t
    → IsCounted (ps ++ p ∷ []) (bump_thread tid ps' now t)
bumped tid p ps ps' now t e hit h =
    ground (arith, count_in-snoc t.id ps p, eq_ℤ_iff t.id tid, eq_ℤ_iff p.thread_id t.id)

passed_by :
    (tid : ℤ) (p : Post) (ps : List Post) (t : Thread)
    → p.thread_id ≡ tid
    → eq_ℤ t.id tid ≡ false
    → IsCounted ps t
    → IsCounted (ps ++ p ∷ []) t
passed_by tid p ps t e miss h =
    ground (arith, count_in-snoc t.id ps p, eq_ℤ_iff t.id tid, eq_ℤ_iff p.thread_id t.id)

inserted-post :
    (arg : CreateThreadPostParams) (db : Db)
    → has_thread arg.thread_id db ≡ true
    → has_member arg.member_id db ≡ true
    → Advances db (insert_post arg db)
unfolding has_thread thread_by_id has_member member_by_id
inserted-post arg db there author = record {
  next_member = omega arith;
  next_thread = omega arith;
  next_post = omega arith;
  consistent = λ c.
      let new = new_post arg db in
      let posts = db.posts ++ new ∷ [] in
      let p = λ (t : Thread). eq_ℤ t.id arg.thread_id in
      let f = bump_thread arg.thread_id posts db.now in
      record {
        members = c.members;
        threads =
            subst (Ascending 0 db.next_thread)
              (sym (map-update_where p f (λ t. t.id) (λ t. refl) db.threads)) c.threads;
        posts =
            subst (Ascending 0 (suc db.next_post))
              (sym (map-append (λ (q : Post). q.id) db.posts (new ∷ [])))
              (Ascending-snoc 0 db.next_post _ (omega arith) c.posts);
        parents =
            All-append (λ (q : Post). IsTaken db.next_thread q.thread_id) db.posts (new ∷ [])
              c.parents
              (found-IsTaken 0 db.next_thread arg.thread_id db.threads c.threads there, tt);
        addresses = c.addresses;
        profiles = c.profiles;
        owners =
            All-update_where p f _ (λ t. IsMember db.members t.member_id) (λ t _ h. h) (λ t _ h. h)
              db.threads c.owners;
        authors =
            All-append (λ (q : Post). IsMember db.members q.member_id) db.posts (new ∷ []) c.authors
              (author, tt);
        counted =
            All-update_where p f (IsCounted db.posts) (IsCounted posts)
              (λ t hit h. bumped arg.thread_id new db.posts posts db.now t refl hit h)
              (λ t miss h. passed_by arg.thread_id new db.posts t refl miss h) db.threads c.counted;
        totals =
            rw (length-update_where p f db.threads)
              (rw (length-append db.posts (new ∷ [])) (Totals-post db.board _ _ _ c.totals));
      };
}

pub create_thread_post-Advances :
    (arg : CreateThreadPostParams) → KeepsQuery Advances (create_thread_post arg)
unfolding create_thread_post
create_thread_post-Advances arg = Keeps-call Advances-faults (try_insert_post arg) λ db.
    elim (Bool-cases (may_insert_post arg db)) [
      | inl good ↦ rw good (inserted-post arg db (ground (arith, good)) (ground (arith, good)))
      | inr bad ↦ rw bad (taken-post db)
    ]

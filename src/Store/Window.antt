-- ===== src/Store/Window.antt =====
-- queries.sql.go: updates that meet no row.
use tdiscuss.Base.{ℕ, ◌≡◌, refl, Bool, false, List, [], ◌∷◌, All}
use tdiscuss.Store.Tables.{Db, Thread, row, next_fault, call, update_where}
use tdiscuss.Store.Threads.{
  UpdateThreadPostParams, post_matches, update_thread_post, UpdateThreadParams, thread_matches,
  update_thread, breaks_check,
}

update_where_none :
    {A : Type 0} (p : A → Bool) (f : A → A) (xs : List A)
    → All (λ x. p x ≡ false) xs
    → update_where p f xs ≡ xs
unfolding update_where
update_where_none p f [] h = refl
update_where_none p f (x ∷ xs) h = rw (h.0, update_where_none p f xs h.1) refl

breaks_check_none :
    (arg : UpdateThreadParams) (now : ℕ) (ts : List Thread)
    → All (λ t. thread_matches now arg t ≡ false) ts
    → breaks_check ts (thread_matches now arg) arg.subject ≡ false
unfolding breaks_check
breaks_check_none arg now [] h = refl
breaks_check_none arg now (t ∷ ts) h = rw (h.0) (breaks_check_none arg now ts h.1)

-- If no post has the number, the member and a date within fifteen minutes, and the call does not
-- fail, the update of a post reports success and changes no post.
pub update_thread_post-unmatched :
    (arg : UpdateThreadPostParams) (db : Db)
    → next_fault db.faults ≡ false
    → All (λ p. post_matches db.now arg p ≡ false) db.posts
    → ((update_thread_post arg db).0 ≡ row tt) × ((update_thread_post arg db).1.posts ≡ db.posts)
unfolding update_thread_post call
update_thread_post-unmatched arg db fine h = rw fine (refl, update_where_none _ _ db.posts h)

-- If no thread has the number, the member and a date within fifteen minutes, and the call does not
-- fail, the update of a thread reports success, even for an empty subject, and changes no thread.
pub update_thread-unmatched :
    (arg : UpdateThreadParams) (db : Db)
    → next_fault db.faults ≡ false
    → All (λ t. thread_matches db.now arg t ≡ false) db.threads
    → ((update_thread arg db).0 ≡ row tt) × ((update_thread arg db).1.threads ≡ db.threads)
unfolding update_thread call
update_thread-unmatched arg db fine h =
    rw (fine, breaks_check_none arg db.now db.threads h) (refl, update_where_none _ _ db.threads h)

-- ===== src/GnmiServer/Answers.antt =====
-- internal/gnmiserver/server.go: what Get answers, and what a subscription is filled in with.
use frr_visible.Base.{
  ◌≡◌, refl, sym, ap, subst, ◌∙◌, List, [], ◌∷◌, ◌++◌, append_assoc, append-nil, Option, none, some,
  if◌then◌else◌, arith,
}
use frr_visible.Base.Text.{Text, is_empty}
use frr_visible.State.{FullPath, Notification, Cache}
use frr_visible.GnmiServer.{
  GetRequest, Answer, found, invalid_argument, not_found, Completed, query_path, bad_path,
  notifications, visited, prefix_target, paths_of, or_return, get_path, get_loop, get,
}

-- The leaves that are notifications, in their order.
unfoldable pub readable : List (Option Notification) → List Notification
readable [] = []
readable (none ∷ ls) = readable ls
readable (some n ∷ ls) = n ∷ readable ls

-- The paths that a request is about; the path without a target, an origin and elements is the tree.
abbrev pub wanted : List FullPath → List FullPath
wanted [] = record { target = []; origin = []; elem = [] } ∷ []
wanted (p ∷ ps) = p ∷ ps

-- The target of a request at a cache.
abbrev pub target_at : Text → Option FullPath → Text
target_at own none = own
target_at own (some p) = if is_empty p.target then own else p.target

readable-notifications : (ls : List (Option Notification)) → notifications ls ≡ readable ls
unfolding notifications readable
readable-notifications [] = refl
readable-notifications (none ∷ ls) = readable-notifications ls
readable-notifications (some n ∷ ls) = ap (λ l. n ∷ l) (readable-notifications ls)

wanted-paths_of : (ps : List FullPath) → paths_of ps ≡ wanted ps
wanted-paths_of [] = refl
wanted-paths_of (p ∷ ps) = refl

target_at-prefix_target :
    (own : Text) (prefix : Option FullPath)
    → (if is_empty (prefix_target prefix) then own else prefix_target prefix) ≡ target_at own prefix
target_at-prefix_target own none = refl
target_at-prefix_target own (some p) = refl

module _ {C : Type 0} (complete_path : Option FullPath → FullPath → Completed)
    (query : C → Text → List Text → List (Option Notification) × Option Text) where
  -- What a path is answered on its own: the error of CompletePath, or that of the query, or the
  -- notifications of the query.
  pub data Answers (c : C) (prefix : Option FullPath) (target : Text) (p : FullPath)
      : Answer → Type 0 where
    incomplete :
        {e : Text}
        → complete_path prefix p ≡ bad_path e
        → Answers c prefix target p (invalid_argument e)
    query_fails :
        {q : List Text} {ls : List (Option Notification)} {e : Text}
        → complete_path prefix p ≡ query_path q
        → query c target q ≡ (ls, some e)
        → Answers c prefix target p (not_found e)
    reads :
        {q : List Text} {ls : List (Option Notification)}
        → complete_path prefix p ≡ query_path q
        → query c target q ≡ (ls, none)
        → Answers c prefix target p (found (readable ls))

  abbrev alone : C → Option FullPath → Text → FullPath → Answer
  alone c prefix target p = get_path complete_path query c prefix target p []

  abbrev pub Found : Answer → List Notification → Type 0
  Found a ns = a ≡ found ns

  -- The notifications of paths that are all answered, in their order.
  pub data AllFound (c : C) (prefix : Option FullPath) (target : Text)
      : List FullPath → List Notification → Type 0 where
    nothing : AllFound c prefix target [] []
    also :
        {p : FullPath} {ps : List FullPath} {ns more : List Notification}
        → Answers c prefix target p (found ns)
        → AllFound c prefix target ps more
        → AllFound c prefix target (p ∷ ps) (ns ++ more)

  -- An answer that is an error.
  abbrev pub IsError : Answer → Type 0
  IsError (found ns) = ⊥
  IsError (invalid_argument e) = Unit {0}
  IsError (not_found e) = Unit {0}

  -- All paths are answered, or the first that is not decides.
  pub data Decided (c : C) (prefix : Option FullPath) (target : Text) (ps : List FullPath)
      (a : Answer) : Type 0 where
    all_found :
        {ns : List Notification}
        → AllFound c prefix target ps ns
        → a ≡ found ns
        → Decided c prefix target ps a
    fails_at :
        (before : List FullPath) (p : FullPath) (after : List FullPath) {ns : List Notification}
        → ps ≡ before ++ p ∷ after
        → AllFound c prefix target before ns
        → IsError a
        → Answers c prefix target p a
        → Decided c prefix target ps a

  visited_as :
      (c : C) (prefix : Option FullPath) (target : Text) (p : FullPath) (q : List Text)
      (r : List (Option Notification) × Option Text)
      → complete_path prefix p ≡ query_path q
      → query c target q ≡ r
      → Answers c prefix target p (visited complete_path query [] r)
  visited_as c prefix target p q (ls, none) ec eq =
      subst (λ l. Answers c prefix target p (found l)) (sym (readable-notifications ls))
        (reads ec eq)
  visited_as c prefix target p q (ls, some e) ec eq = query_fails ec eq

  completed_as :
      (c : C) (prefix : Option FullPath) (target : Text) (p : FullPath) (x : Completed)
      → complete_path prefix p ≡ x
      → Answers c prefix target p (elim x [
        | bad_path e ↦ invalid_argument e
        | query_path q ↦ visited complete_path query [] (query c target q)
      ])
  completed_as c prefix target p (bad_path e) ec = incomplete ec
  completed_as c prefix target p (query_path q) ec =
      visited_as c prefix target p q (query c target q) ec refl

  alone-Answers :
      (c : C) (prefix : Option FullPath) (target : Text) (p : FullPath)
      → Answers c prefix target p (alone c prefix target p)
  unfolding get_path
  alone-Answers c prefix target p = completed_as c prefix target p (complete_path prefix p) refl

  -- What came before is put in front of what the path finds.
  abbrev put_before : List Notification → Answer → Answer
  put_before ns (found more) = found (ns ++ more)
  put_before ns (invalid_argument e) = invalid_argument e
  put_before ns (not_found e) = not_found e

  get_path-alone :
      (c : C) (prefix : Option FullPath) (target : Text) (p : FullPath) (ns : List Notification)
      → get_path complete_path query c prefix target p ns ≡ put_before ns (alone c prefix target p)
  unfolding get_path
  get_path-alone c prefix target p ns = ground arith

  put_before-append :
      (ns ms : List Notification) (a : Answer)
      → put_before ns (put_before ms a) ≡ put_before (ns ++ ms) a
  put_before-append ns ms (found more) = ap found (sym (append_assoc ns ms more))
  put_before-append ns ms (invalid_argument e) = refl
  put_before-append ns ms (not_found e) = refl

  put_before-error : (ns : List Notification) (a : Answer) → IsError a → put_before ns a ≡ a
  put_before-error ns (found more) h = absurd h
  put_before-error ns (invalid_argument e) h = refl
  put_before-error ns (not_found e) h = refl

  module _ (c : C) (prefix : Option FullPath) (target : Text) where
    loop : List FullPath → List Notification → Answer
    loop ps ns = get_loop complete_path query c prefix target ps ns

    put_before_through :
        (ps : List FullPath) (ns : List Notification) (a : Answer)
        → ((ms : List Notification) → loop ps ms ≡ put_before ms (loop ps []))
        → or_return (put_before ns a) (loop ps) ≡ put_before ns (or_return a (loop ps))
    put_before_through ps ns (found ms) ih =
        ih (ns ++ ms) ∙ (sym (put_before-append ns ms _) ∙ ap (put_before ns) (sym (ih ms)))
    put_before_through ps ns (invalid_argument e) ih = refl
    put_before_through ps ns (not_found e) ih = refl

    loop-put_before :
        (ps : List FullPath) (ns : List Notification) → loop ps ns ≡ put_before ns (loop ps [])
    unfolding loop get_loop
    loop-put_before [] ns = ap found (sym (append-nil ns))
    loop-put_before (p ∷ ps) ns =
        ap (λ a. or_return a (loop ps)) (get_path-alone c prefix target p ns)
        ∙ put_before_through ps ns (alone c prefix target p) (loop-put_before ps)

    settled_as :
        (p : FullPath) (a : Answer) → alone c prefix target p ≡ a → Answers c prefix target p a
    settled_as p a e = subst (Answers c prefix target p) e (alone-Answers c prefix target p)

    decided :
        (p : FullPath) (ps : List FullPath) (a : Answer)
        → alone c prefix target p ≡ a
        → Decided c prefix target ps (loop ps [])
        → Decided c prefix target (p ∷ ps) (or_return a (loop ps))
    decided p ps (found ns) e (all_found all r) =
        all_found (also (settled_as p (found ns) e) all)
          (loop-put_before ps ns ∙ ap (put_before ns) r)
    decided p ps (found ns) e (fails_at before q after split all bad r) =
        let same = loop-put_before ps ns ∙ put_before-error ns (loop ps []) bad in
        fails_at (p ∷ before) q after (ap (λ l. p ∷ l) split) (also (settled_as p (found ns) e) all)
          (subst IsError (sym same) bad) (subst (Answers c prefix target q) (sym same) r)
    decided p ps (invalid_argument m) e d = fails_at [] p ps refl nothing tt (settled_as p _ e)
    decided p ps (not_found m) e d = fails_at [] p ps refl nothing tt (settled_as p _ e)

    loop-Decided : (ps : List FullPath) → Decided c prefix target ps (loop ps [])
    unfolding loop get_loop
    loop-Decided [] = all_found nothing refl
    loop-Decided (p ∷ ps) = decided p ps (alone c prefix target p) refl (loop-Decided ps)

  -- Get takes the target of the request's prefix, and the cache's where that is empty; without a path
  -- it takes the whole tree. It answers with the notifications that the queries of all of its paths
  -- give there, one after the other, or with the error of the first path that cannot be completed, an
  -- invalid argument, or whose query fails, not found, and then without any notification.
  pub get-Decided :
      (s : Cache C) (req : GetRequest)
      → Decided s.c req.prefix
          (target_at s.target req.prefix)
          (wanted req.path)
          (get complete_path query s req)
  unfolding get loop
  get-Decided s req =
      subst
        (λ ps.
          Decided s.c req.prefix (target_at s.target req.prefix) ps (get complete_path query s req))
        (wanted-paths_of req.path)
        (subst (λ t. Decided s.c req.prefix t (paths_of req.path) (get complete_path query s req))
          (target_at-prefix_target s.target req.prefix)
          (loop-Decided s.c req.prefix _ (paths_of req.path)))

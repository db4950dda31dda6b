-- ===== src/Http/Client/Oneshots.antt =====
-- What the client's operations do for the oneshots that wait.
use matrix_ircd.Prelude.{
  ℕ, zero, suc, ◌≡◌, refl, sym, ap, subst, ◌∙◌, true, inl, inr, List, [], ◌∷◌, ◌++◌, append-nil,
  append_assoc, length,
}
use matrix_ircd.Prelude.{Outcome, returns, panics, ◌>>=◌}
use matrix_ircd.Prelude.{List-cases}
use matrix_ircd.Irc.Socket.{
  IoError, Poll, ready, not_ready, failed, WriteEvent, room_for, write_blocks, write_fails,
}
use matrix_ircd.Http.Parser.{Response}
use matrix_ircd.Http.Client.{
  Request, Reply, answered, Shared, send_request, HttpClientHandler, take_requests, write_to,
  flush_requests, write_request, PollResult, hand_out, after_response, give_up,
}

-- The oneshots of replies and of requests that are not taken yet.
abbrev pub replied : List (ℕ × Reply) → List ℕ
replied [] = []
replied ((future, _) ∷ replies) = future ∷ replied replies

abbrev pub queued : List (Request × ℕ) → List ℕ
queued [] = []
queued ((_, future) ∷ requests) = future ∷ queued requests

replied-append : (xs ys : List (ℕ × Reply)) → replied (xs ++ ys) ≡ replied xs ++ replied ys
replied-append [] ys = refl
replied-append ((f, _) ∷ xs) ys = ap (◌∷◌ f) (replied-append xs ys)

queued-append : (xs ys : List (Request × ℕ)) → queued (xs ++ ys) ≡ queued xs ++ queued ys
queued-append [] ys = refl
queued-append ((_, f) ∷ xs) ys = ap (◌∷◌ f) (queued-append xs ys)

pub length-queued : (xs : List (Request × ℕ)) → length (queued xs) ≡ length xs
length-queued [] = refl
length-queued ((_, f) ∷ xs) = ap suc (length-queued xs)

pub replied-give_up : (e : IoError) (fs : List ℕ) → replied (give_up e fs) ≡ fs
unfolding give_up
replied-give_up e [] = refl
replied-give_up e (f ∷ fs) = ap (◌∷◌ f) (replied-give_up e fs)

pub requests-take_requests :
    (rs : List (Request × ℕ)) (h : HttpClientHandler)
    → (take_requests rs h).requests ≡ h.requests ++ queued rs
unfolding take_requests write_request
requests-take_requests [] h = sym (append-nil h.requests)
requests-take_requests ((r, f) ∷ rs) h =
    requests-take_requests rs
      (record (write_request r h) { requests = (write_request r h).requests ++ f ∷ [] })
    ∙ append_assoc h.requests (f ∷ []) (queued rs)

requests-write_to :
    (h : HttpClientHandler) (ws : List WriteEvent) → (write_to h ws).1.requests ≡ h.requests
unfolding write_to
requests-write_to h [] = refl
requests-write_to h (write_blocks ∷ ws) = refl
requests-write_to h (write_fails e ∷ ws) = refl
requests-write_to h (room_for n ∷ ws) = refl

pub requests-flush_requests : (h : HttpClientHandler) → (flush_requests h).1.requests ≡ h.requests
unfolding flush_requests
requests-flush_requests h = elim (List-cases h.write_buffer) [
  | inl e ↦ rw (flush_requests, e) refl
  | inr (b, bs, e) ↦ rw (flush_requests, e) (requests-write_to h h.stream.writes)
]

-- The requests of a handler are to be answered before those that are not taken yet.
abbrev pub waiting : List ℕ → Shared → List ℕ
waiting pending s = pending ++ queued s.inner.requests

-- What an operation that ends with `pending` does for the oneshots that wait: those that it sends on
-- are the first of these.
abbrev pub Serves : List ℕ → Shared → List ℕ → Shared → Type 0
Serves pending s pending' s' =
    (news : List (ℕ × Reply)) × (s'.replies ≡ s.replies ++ news)
    × (replied news ++ waiting pending' s' ≡ waiting pending s)
    × (s'.oneshots ≡ s.oneshots)
    × (s'.notified ≡ s.notified)

pub Serves-refl : (pending : List ℕ) (s : Shared) → Serves pending s pending s
Serves-refl pending s = ([], sym (append-nil s.replies), refl, refl, refl)

pub Serves-trans :
    (a b c : List ℕ) (s t u : Shared) → Serves a s b t → Serves b t c u → Serves a s c u
Serves-trans a b c s t u (n, e, w, o, m) (n', e', w', o', m') = (
  n ++ n',
  e' ∙ ap (λ x. x ++ n') e ∙ append_assoc s.replies n n',
  ap (λ x. x ++ waiting c u) (replied-append n n')
      ∙ append_assoc (replied n) (replied n') (waiting c u)
      ∙ ap (◌++◌ (replied n)) w'
      ∙ w,
  o' ∙ o,
  m' ∙ m,
)

-- The oneshots given out are those answered and those that wait, in the order of their numbers.
abbrev pub upto : ℕ → List ℕ
upto zero = []
upto (suc n) = upto n ++ n ∷ []

abbrev pub InOrder : List ℕ → Shared → Type 0
InOrder pending s = replied s.replies ++ waiting pending s ≡ upto s.oneshots

pub Serves-InOrder : (a b : List ℕ) (s t : Shared) → Serves a s b t → InOrder a s → InOrder b t
Serves-InOrder a b s t (news, e, w, o, _) h =
    ap (λ x. replied x ++ waiting b t) e
    ∙ ap (λ x. x ++ waiting b t) (replied-append s.replies news)
    ∙ append_assoc (replied s.replies) (replied news) (waiting b t)
    ∙ ap (◌++◌ (replied s.replies)) w
    ∙ h
    ∙ ap upto (sym o)

pub send_request-InOrder :
    (r : Request) (pending : List ℕ) (s : Shared)
    → InOrder pending s
    → InOrder pending (send_request r s).1
unfolding send_request
send_request-InOrder r pending s h =
    ap (λ x. replied s.replies ++ (pending ++ x))
      (queued-append s.inner.requests ((r, s.oneshots) ∷ []))
    ∙ ap (◌++◌ (replied s.replies))
        (sym (append_assoc pending (queued s.inner.requests) (s.oneshots ∷ [])))
    ∙ sym (append_assoc (replied s.replies) (waiting pending s) (s.oneshots ∷ []))
    ∙ ap (λ x. x ++ s.oneshots ∷ []) h

-- Not `Ready`.
abbrev pub Unfinished : Poll (Unit {0}) → Type 0
Unfinished (ready _) = ⊥
Unfinished not_ready = Unit
Unfinished (failed e) = Unit

-- What a poll that returns does for the oneshots, that it has registered the task, and that it is
-- never `Ready`.
abbrev pub PollServes : List ℕ → Shared → PollResult → Type 0
PollServes pending s (returns (p, h, s')) =
    Serves pending s h.requests s' × (s'.inner.task ≡ true) × Unfinished p
PollServes pending s panics = Unit

pub PollServes-trans :
    (a b : List ℕ) (s t : Shared) (res : PollResult)
    → Serves a s b t
    → PollServes b t res
    → PollServes a s res
PollServes-trans a b s t (returns (p, h, u)) k (l, task, open') =
    (Serves-trans a b h.requests s t u k l, task, open')
PollServes-trans a b s t panics k l = tt

pub PollServes-bind :
    {A : Type 0} (a : List ℕ) (s : Shared) (m : Outcome A) (f : A → PollResult)
    → ((x : A) → PollServes a s (f x))
    → PollServes a s (m >>= f)
PollServes-bind a s (returns x) f h = h x
PollServes-bind a s panics f h = tt

hand_out-PollServes :
    (again : HttpClientHandler → Shared → PollResult) (resp : Response) (pending : List ℕ)
    (h : HttpClientHandler) (s : Shared)
    → s.inner.task ≡ true
    → h.requests ≡ pending
    → ((h' : HttpClientHandler) (s' : Shared)
        → s'.inner.task ≡ true
        → PollServes h'.requests s' (again h' s'))
    → PollServes pending s (hand_out again resp pending h s)
unfolding hand_out
hand_out-PollServes again resp [] h s task e ih =
    (subst (λ x. Serves [] s x s) (sym e) (Serves-refl [] s), task, tt)
hand_out-PollServes again resp (future ∷ rest) h s task e ih =
    let s' = record s { replies = s.replies ++ (future, answered resp) ∷ [] } in
    let h' = record h { requests = rest } in
    PollServes-trans (future ∷ rest) rest s s' (again h' s')
      ((future, answered resp) ∷ [], refl, refl, refl, refl) (ih h' s' task)

pub after_response-PollServes :
    (again : HttpClientHandler → Shared → PollResult) (p : Poll Response) (h : HttpClientHandler)
    (s : Shared)
    → s.inner.task ≡ true
    → ((h' : HttpClientHandler) (s' : Shared)
        → s'.inner.task ≡ true
        → PollServes h'.requests s' (again h' s'))
    → PollServes h.requests s (after_response again p h s)
unfolding after_response
after_response-PollServes again (ready resp) h s task ih =
    hand_out-PollServes again resp h.requests h s task refl ih
after_response-PollServes again not_ready h s task ih = (Serves-refl h.requests s, task, tt)
after_response-PollServes again (failed e) h s task ih = (Serves-refl h.requests s, task, tt)

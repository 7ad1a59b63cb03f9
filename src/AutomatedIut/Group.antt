-- ===== src/AutomatedIut/Group.antt =====
-- Several automated IUTs on one event bus: every one of them receives every message.
use mathlib.Core.List.{append-nil}
use ioppytest.Prelude.{
  ℕ, zero, suc, ◌≡◌, refl, sym, ap, ◌∙◌, subst, Bool, true, false, List, [], ◌∷◌, ◌++◌, map, Option,
  none, some, Text, ◌==◌, ◌||◌, drop, length, get_elem?, mem, text_eq_iff, arith,
}
use ioppytest.AutomatedIut.{
  AutomatedIut, Event, Answer, on_request, handle_stimuli_execute, handle_testcase_verify_execute,
  handle_configuration_execute, handle_test_ping,
}

-- What they publish on a message, in the order of the group.
unfoldable pub collect : Event → List AutomatedIut → List Answer
collect event [] = []
collect event (iut ∷ rest) =
    drop (length iut.published) (on_request event iut).1.published ++ collect event rest

-- The node that a message is for.
abbrev pub addressee : Event → Option Text
addressee (Event.step_verify_execute node step_id) = some node
addressee (Event.step_stimuli_execute node step_id addr) = some node
addressee (Event.configuration_execute testcase_id node) = some node
addressee (Event.test_ping node addr) = some node
addressee _ = none

-- No two IUTs have the same node.
abbrev pub Distinct : List AutomatedIut → Type 0
Distinct [] = Unit
Distinct (iut ∷ rest) = (mem iut.node (map (λ i. i.node) rest) ≡ false) × Distinct rest

drop_append : {A : Type 0} (xs ys : List A) → drop (length xs) (xs ++ ys) ≡ ys
drop_append [] ys = refl
drop_append (x ∷ xs) ys = drop_append xs ys

others_silent :
    (event : Event) (node : Text) (iut : AutomatedIut)
    → addressee event ≡ some node
    → (node == iut.node) ≡ false
    → (on_request event iut).1.published ≡ iut.published
unfolding on_request handle_stimuli_execute handle_testcase_verify_execute
    handle_configuration_execute handle_test_ping
others_silent Event.undecodable node iut a n = refl
others_silent (Event.testcase_ready tc) node iut a n = cc a
others_silent (Event.step_verify_execute m s) node iut a n = ground arith
others_silent (Event.step_stimuli_execute m s t) node iut a n = ground arith
others_silent Event.testsuite_report node iut a n = refl
others_silent Event.testing_tool_terminate node iut a n = cc a
others_silent (Event.configuration_execute tc m) node iut a n = ground arith
others_silent (Event.test_ping m t) node iut a n = ground arith
others_silent Event.other node iut a n = refl

-- What an IUT publishes, by what it has published after the message.
sent :
    (event : Event) (iut : AutomatedIut) (l : List Answer)
    → (on_request event iut).1.published ≡ iut.published ++ l
    → drop (length iut.published) (on_request event iut).1.published ≡ l
sent event iut l e = ap (drop (length iut.published)) e ∙ drop_append iut.published l

sent_none :
    (event : Event) (node : Text) (iut : AutomatedIut)
    → addressee event ≡ some node
    → (node == iut.node) ≡ false
    → drop (length iut.published) (on_request event iut).1.published ≡ []
sent_none event node iut a n =
    sent event iut [] (others_silent event node iut a n ∙ sym (append-nil iut.published))

not_first : (a b : Bool) → (a || b) ≡ false → (a ≡ false) × (b ≡ false)
not_first true b h = cc h
not_first false b h = (refl, h)

none_silent :
    (event : Event) (node : Text) (iuts : List AutomatedIut)
    → addressee event ≡ some node
    → mem node (map (λ i. i.node) iuts) ≡ false
    → collect event iuts ≡ []
unfolding collect mem
none_silent event node [] a n = refl
none_silent event node (iut ∷ rest) a n =
    let (m, k) = not_first (node == iut.node) (mem node (map (λ i. i.node) rest)) n in
    rw (sent_none event node iut a m) (none_silent event node rest a k)

differs_sym : (s t : Text) → (s == t) ≡ false → (t == s) ≡ false
differs_sym s t n = ground (arith, text_eq_iff s t, text_eq_iff t s)

-- The node of a later IUT is not that of the first.
later_differs :
    (first : Text) (rest : List AutomatedIut) (i : ℕ) (iut : AutomatedIut)
    → mem first (map (λ i. i.node) rest) ≡ false
    → get_elem? rest i ≡ some iut
    → (iut.node == first) ≡ false
unfolding mem
later_differs first [] i iut n g = cc g
later_differs first (x ∷ rest) zero iut n g =
    let same : x ≡ iut = cc in
    let (m, k) = not_first (first == x.node) (mem first (map (λ i. i.node) rest)) n in
    ap (λ y. y.node == first) (sym same) ∙ differs_sym first x.node m
later_differs first (x ∷ rest) (suc i) iut n g =
    later_differs first rest i iut
      (not_first (first == x.node) (mem first (map (λ i. i.node) rest)) n).1 g

-- On a message for the node of one IUT of a group with distinct nodes, the group publishes what
-- that IUT publishes, and nothing else.
pub collect-addressee :
    (event : Event) (iuts : List AutomatedIut) (i : ℕ) (iut : AutomatedIut) (l : List Answer)
    → Distinct iuts
    → get_elem? iuts i ≡ some iut
    → addressee event ≡ some iut.node
    → (on_request event iut).1.published ≡ iut.published ++ l
    → collect event iuts ≡ l
unfolding collect
collect-addressee event [] i iut l d g a e = cc g
collect-addressee event (x ∷ rest) zero iut l (n, d) g a e =
    let same : iut ≡ x = cc in
    let node = a ∙ ap (λ y. some y.node) same in
    ap (λ r. drop (length x.published) (on_request event x).1.published ++ r)
      (none_silent event x.node rest node n)
    ∙ append-nil (drop (length x.published) (on_request event x).1.published)
    ∙ sent event x l (subst (λ y. (on_request event y).1.published ≡ y.published ++ l) same e)
collect-addressee event (x ∷ rest) (suc i) iut l (n, d) g a e =
    rw (sent_none event iut.node x a (later_differs x.node rest i iut n g))
      (collect-addressee event rest i iut l d g a e)

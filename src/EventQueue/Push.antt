-- ===== src/EventQueue/Push.antt =====
-- `pushs` and `push` append.
use nf_server.Prelude.{
  ℕ, ◌≡◌, refl, sym, ◌∙◌, ◌≢◌, false, some, List, [], ◌∷◌, ◌++◌, arith, has, update_self, ◌==◌,
  Distinct-snoc, length, length-append, append_assoc, append-nil,
}
use mathlib.Core.Path.{subst}
use nf_server.EventQueue.{EQueue, null, link, link_all, pushs}
use nf_server.EventQueue.Links.{
  IsLinked, Holds, last_or, recount, Linked-snoc, Linked-ne, has-last_or, last_or-append,
}

-- `link` appends one event.
link-IsLinked :
    {q : EQueue} (xs : List ℕ) (e : ℕ)
    → IsLinked q xs
    → e ≢ null
    → has e xs ≡ false
    → IsLinked (link e q) (xs ++ (e ∷ []))
unfolding link
link-IsLinked {q} [] e h ne out = rw (h.last) (record {
  linked = (ne, update_self q.previous e null, update_self q.next e null, tt);
  first = refl;
  last = refl;
  distinct = (refl, tt);
})
link-IsLinked {q} (x ∷ xs) e h ne out =
    rw (tail_ne, h.last)
      (record {
        linked = Linked-snoc q.next q.previous x xs e h.distinct ne out h.linked;
        first = h.first;
        last = sym (last_or-append x xs e);
        distinct = Distinct-snoc (x ∷ xs) e h.distinct out;
      })
  where
    tail_ne : (q.end == null) ≡ false
    tail_ne = ground (
      arith,
      h.last,
      Linked-ne q.next q.previous null (x ∷ xs) null (last_or x xs) h.linked (has-last_or x xs),
    )

-- No event of the second list is NULL, is in the first list or comes twice.
abbrev pub AreFresh : List ℕ → List ℕ → Type 0
AreFresh xs [] = Unit {0}
AreFresh xs (e ∷ es) = (e ≢ null) × (has e xs ≡ false) × AreFresh (xs ++ (e ∷ [])) es

link_all-IsLinked :
    (es : List ℕ) {q : EQueue} (xs : List ℕ)
    → IsLinked q xs
    → AreFresh xs es
    → IsLinked (link_all es q) (xs ++ es)
unfolding link_all
link_all-IsLinked [] xs h f = rw append-nil h
link_all-IsLinked (e ∷ es) {q} xs h (ne, out, f) =
    subst (λ (l : List ℕ). IsLinked (link_all es (link e q)) l) (append_assoc xs (e ∷ []) es)
      (link_all-IsLinked es (xs ++ (e ∷ [])) (link-IsLinked xs e h ne out) f)

used-link_all : (es : List ℕ) (q : EQueue) → (link_all es q).used ≡ q.used
unfolding link_all link
used-link_all [] q = refl
used-link_all (e ∷ es) q = used-link_all es (link e q) ∙ ground arith

-- `pushs` appends the events, in their order, and returns their number, whatever the capacity of the
-- queue is. The events must not be NULL, be in the queue or come twice.
pub pushs_lem :
    {q : EQueue} (xs es : List ℕ)
    → Holds q xs
    → AreFresh xs es
    → ((pushs (some es) q).0 ≡ length es) × Holds (pushs (some es) q).1 (xs ++ es)
unfolding pushs
pushs_lem {q} xs es h f = (
  refl,
  record {
    links = recount _ (link_all-IsLinked es xs h.links f);
    counted = ground (arith, used-link_all es q, h.counted, length-append xs es);
  },
)

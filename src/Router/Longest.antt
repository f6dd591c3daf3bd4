-- ===== src/Router/Longest.antt =====
-- `Router::route_one_datagram` of libsponge/router.cc: the route that its loop finds.
use csed.Base.{
  ℕ, ◌≤◌, ◌<◌, ◌≡◌, refl, sym, subst, ap, ◌∙◌, true, false, ◌⊎◌, inl, inr, List, [], ◌∷◌, ◌++◌,
  append_assoc, append-nil, arith, leb, Bool-cases,
}
use csed.Router.{RouteInformation, Match, matches, no_match, of_route, consider, find_route}

-- The routes that match have prefixes of at most `limit` bits; of fewer than that.
abbrev pub AllUpTo : ℕ → ℕ → List RouteInformation → Type 0
AllUpTo dst limit [] = Unit {0}
AllUpTo dst limit (el ∷ els) =
    (matches dst el ≡ true → el.prefix_length ≤ limit) × AllUpTo dst limit els

abbrev pub AllBelow : ℕ → ℕ → List RouteInformation → Type 0
AllBelow dst limit [] = Unit {0}
AllBelow dst limit (el ∷ els) =
    (matches dst el ≡ true → el.prefix_length < limit) × AllBelow dst limit els

abbrev pub NoneMatches : ℕ → List RouteInformation → Type 0
NoneMatches dst [] = Unit {0}
NoneMatches dst (el ∷ els) = (matches dst el ≡ false) × NoneMatches dst els

-- The last of the longest routes that match.
pub record IsLongest (dst : ℕ) (table : List RouteInformation) (m : Match) : Type 0 where
  pub before : List RouteInformation
  pub route : RouteInformation
  pub after : List RouteInformation
  pub split : table ≡ before ++ (route ∷ after)
  pub matched : matches dst route ≡ true
  pub longest : AllUpTo dst route.prefix_length before
  pub last : AllBelow dst route.prefix_length after
  pub found : m ≡ of_route route

abbrev pub Found : ℕ → List RouteInformation → Match → Type 0
Found dst table m = ((m ≡ no_match) × NoneMatches dst table) ⊎ IsLongest dst table m

AllUpTo-append :
    (dst limit : ℕ) (xs : List RouteInformation) (el : RouteInformation)
    (ys : List RouteInformation)
    → AllUpTo dst limit xs
    → (matches dst el ≡ true → el.prefix_length ≤ limit)
    → AllUpTo dst limit ys
    → AllUpTo dst limit (xs ++ (el ∷ ys))
AllUpTo-append dst limit [] el ys a h b = (h, b)
AllUpTo-append dst limit (x ∷ xs) el ys a h b = (a.0, AllUpTo-append dst limit xs el ys a.1 h b)

AllUpTo-weaken :
    (dst m n : ℕ) (xs : List RouteInformation) → m ≤ n → AllUpTo dst m xs → AllUpTo dst n xs
AllUpTo-weaken dst m n [] h a = tt
AllUpTo-weaken dst m n (x ∷ xs) h a =
    (λ e. omega (arith, h, a.0 e), AllUpTo-weaken dst m n xs h a.1)

AllBelow-AllUpTo : (dst n : ℕ) (xs : List RouteInformation) → AllBelow dst n xs → AllUpTo dst n xs
AllBelow-AllUpTo dst n [] a = tt
AllBelow-AllUpTo dst n (x ∷ xs) a = (λ e. omega (arith, a.0 e), AllBelow-AllUpTo dst n xs a.1)

AllBelow-end :
    (dst n : ℕ) (xs : List RouteInformation) (el : RouteInformation)
    → AllBelow dst n xs
    → (matches dst el ≡ true → el.prefix_length < n)
    → AllBelow dst n (xs ++ (el ∷ []))
AllBelow-end dst n [] el a h = (h, tt)
AllBelow-end dst n (x ∷ xs) el a h = (a.0, AllBelow-end dst n xs el a.1 h)

NoneMatches-end :
    (dst : ℕ) (xs : List RouteInformation) (el : RouteInformation)
    → NoneMatches dst xs
    → matches dst el ≡ false
    → NoneMatches dst (xs ++ (el ∷ []))
NoneMatches-end dst [] el a h = (h, tt)
NoneMatches-end dst (x ∷ xs) el a h = (a.0, NoneMatches-end dst xs el a.1 h)

NoneMatches-AllUpTo :
    (dst n : ℕ) (xs : List RouteInformation) → NoneMatches dst xs → AllUpTo dst n xs
NoneMatches-AllUpTo dst n [] a = tt
NoneMatches-AllUpTo dst n (x ∷ xs) a =
    (λ e. absurd (ground (arith, e, a.0)), NoneMatches-AllUpTo dst n xs a.1)

-- The route considered is the longest of those so far.
newest :
    (dst : ℕ) (done : List RouteInformation) (el : RouteInformation)
    → matches dst el ≡ true
    → AllUpTo dst el.prefix_length done
    → IsLongest dst (done ++ (el ∷ [])) (of_route el)
newest dst done el h a = record {
  before = done;
  route = el;
  after = [];
  split = refl;
  matched = h;
  longest = a;
  last = tt;
  found = refl;
}

-- It is not.
older :
    (dst : ℕ) (done : List RouteInformation) (m : Match) (el : RouteInformation)
    → (l : IsLongest dst done m)
    → (matches dst el ≡ true → el.prefix_length < l.route.prefix_length)
    → IsLongest dst (done ++ (el ∷ [])) m
older dst done m el l h = record {
  before = l.before;
  route = l.route;
  after = l.after ++ (el ∷ []);
  split = ap (λ xs. xs ++ (el ∷ [])) l.split ∙ append_assoc l.before (l.route ∷ l.after) (el ∷ []);
  matched = l.matched;
  longest = l.longest;
  last = AllBelow-end dst l.route.prefix_length l.after el l.last h;
  found = l.found;
}

all_so_far :
    (dst : ℕ) (done : List RouteInformation) (m : Match) (l : IsLongest dst done m)
    → AllUpTo dst l.route.prefix_length done
all_so_far dst done m l = subst (AllUpTo dst l.route.prefix_length) (sym l.split) (
    AllUpTo-append dst l.route.prefix_length l.before l.route l.after l.longest (λ e. omega arith)
      (AllBelow-AllUpTo dst l.route.prefix_length l.after l.last))

length_of :
    (dst : ℕ) (done : List RouteInformation) (m : Match) (l : IsLongest dst done m)
    → m.matched_length ≡ l.route.prefix_length
unfolding of_route
length_of dst done m l = ap (λ (k : Match). k.matched_length) l.found

consider-Found :
    (dst : ℕ) (done : List RouteInformation) (m : Match) (el : RouteInformation)
    → Found dst done m
    → Found dst (done ++ (el ∷ [])) (consider dst m el)
unfolding consider no_match
consider-Found dst done m el (inl (e, a)) = elim (Bool-cases (matches dst el)) [
  | inl hit ↦
      let longer : leb m.matched_length el.prefix_length ≡ true =
        ground (arith, ap (λ (k : Match). k.matched_length) e) in
      rw (hit, longer)
        (inr (newest dst done el hit (NoneMatches-AllUpTo dst el.prefix_length done a)))
  | inr miss ↦ rw miss (inl (e, NoneMatches-end dst done el a miss))
]
consider-Found dst done m el (inr l) = elim (Bool-cases (matches dst el)) [
  | inl hit ↦ elim (Bool-cases (leb m.matched_length el.prefix_length)) [
    | inl longer ↦
        let le : l.route.prefix_length ≤ el.prefix_length =
          ground (arith, longer, length_of dst done m l) in
        rw (hit, longer)
          (inr (
            newest dst done el hit (
              AllUpTo-weaken dst l.route.prefix_length el.prefix_length done le
                (all_so_far dst done m l))))
    | inr shorter ↦
        let lt : el.prefix_length < l.route.prefix_length =
          ground (arith, shorter, length_of dst done m l) in
        rw (hit, shorter) (inr (older dst done m el l (λ e. lt)))
  ]
  | inr miss ↦ rw miss (inr (older dst done m el l (λ e. absurd (ground (arith, e, miss)))))
]

find_from :
    (dst : ℕ) (done : List RouteInformation) (m : Match) (table : List RouteInformation)
    → Found dst done m
    → Found dst (done ++ table) (find_route dst m table)
unfolding find_route
find_from dst done m [] f = subst (λ t. Found dst t m) (sym (append-nil done)) f
find_from dst done m (el ∷ els) f =
    subst (λ t. Found dst t (find_route dst (consider dst m el) els))
      (append_assoc done (el ∷ []) els)
      (find_from dst (done ++ (el ∷ [])) (consider dst m el) els (consider-Found dst done m el f))

-- The loop over the routing table finds the last of the longest routes that match the destination, and finds
-- none exactly if no route matches.
pub find_route-Found :
    (dst : ℕ) (table : List RouteInformation) → Found dst table (find_route dst no_match table)
find_route-Found dst table = find_from dst [] no_match table (inl (refl, tt))

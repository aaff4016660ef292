-- ===== src/Admin/Screen/Streams.antt =====
-- Pictures go the way of all requests (frontend/src/pages/screen.tsx, frontend/src/lib/api.ts).
use icpc_controller.Prelude.{
  ℕ, true, false, [], ◌∷◌, ◌++◌, ◌≡◌, refl, sym, ap, arith, ◌==◌, All, All-imp, All-append,
}
use icpc_controller.Prelude.Text.{Text, codes, show, show-IsDigit}
use icpc_controller.Admin.Routes.{
  head_of, query_of, raw_path, is_proxied, proxied_heads, after_prefix, resolve,
}
use icpc_controller.Admin.Screen.{stream_query, stream_url}

abbrev IsHeadChar : ℕ → Type 0
IsHeadChar c = (c == 63) ≡ false

head_of-append : (head rest : Text) → All IsHeadChar head → head_of (head ++ 63 ∷ rest) ≡ head
unfolding head_of
head_of-append [] rest h = refl
head_of-append (c ∷ cs) rest h = let other = h.0 in rw (other, head_of-append cs rest h.1) refl

query_of-append :
    (head rest : Text) → All IsHeadChar head → query_of (head ++ 63 ∷ rest) ≡ 63 ∷ rest
unfolding query_of
query_of-append [] rest h = refl
query_of-append (c ∷ cs) rest h = let other = h.0 in rw other (query_of-append cs rest h.1)

-- devices/<id>/screen
abbrev pub screen_path : ℕ → Text
screen_path id = codes "devices/" ++ (show id ++ codes "/screen")

screen_path-IsHeadChar : (id : ℕ) → All IsHeadChar (screen_path id)
screen_path-IsHeadChar id =
    All-append _ (codes "devices/") _
      (refl, (refl, (refl, (refl, (refl, (refl, (refl, (refl, tt))))))))
      (All-append _ (show id) (codes "/screen")
        (All-imp (λ c d. ground arith) (show id) (show-IsDigit id))
        (refl, (refl, (refl, (refl, (refl, (refl, (refl, tt))))))))

append_assoc : (a b c : Text) → (a ++ b) ++ c ≡ a ++ (b ++ c)
append_assoc [] b c = refl
append_assoc (x ∷ a) b c = ap (λ l. x ∷ l) (append_assoc a b c)

screen_path-is_proxied : (id : ℕ) → is_proxied (screen_path id) ≡ true
unfolding is_proxied proxied_heads after_prefix
screen_path-is_proxied id = refl

abbrev query_tail : ℕ → Text
query_tail now = codes "hd=0" ++ (codes "&single=1&_t=" ++ show now)

-- The address of a single picture is where a request for it would go, in a room and without one.
pub stream_url-resolve :
    (now : ℕ) (room : Text) (id : ℕ)
    → stream_url now room id true
      ≡ resolve room (codes "/api/" ++ (screen_path id ++ stream_query true now))
unfolding stream_url stream_query resolve raw_path after_prefix
stream_url-resolve now [] id =
    ap (λ t. codes "/api/devices/" ++ t)
      (sym (append_assoc (show id) (codes "/screen") (63 ∷ query_tail now)))
stream_url-resolve now (c ∷ cs) id =
    let head = head_of-append (screen_path id) (query_tail now) (screen_path-IsHeadChar id) in
    let query = query_of-append (screen_path id) (query_tail now) (screen_path-IsHeadChar id) in
    rw (head, query, screen_path-is_proxied id) refl

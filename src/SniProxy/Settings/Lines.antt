-- ===== src/SniProxy/Settings/Lines.antt =====
-- src/netns.rs, `render_proxy_config`: its lines, read one by one by `read_config` of src/sni_proxy.rs.
use basta.Prelude.{
  ℕ, ◌<◌, ◌≡◌, refl, sym, ap, ◌∙◌, ◌≢◌, false, some, List, [], ◌∷◌, ◌++◌, map, append_assoc,
  append-nil, arith, if◌then◌else◌, is_empty, All, All-append_intro, Bytes, codes, eq_bytes,
  to_ascii_lowercase, split, decimal, lines-append, lines, split_whitespace, words_from, IsGraphic,
  is_empty-trim, end_lines, ℤ, show_i32, IsI32, parse_i32-show_i32, parse_uint-decimal,
}
use basta.Prelude.{IsWord, IsWord-IsGraphic, word_before, word_last, ok}
use basta.Egress.Addr.{Ipv4Addr, IsAddr}
use basta.Egress.Spec.{SniRule}
use basta.Egress.Parse.RoundTrip.{parse_ipv4-show_addr}
use basta.Egress.Render.{show_addr}
use basta.SniProxy.Settings.{
  addr_words, sni_lines, Draft, allow_insert, parse_addrs, read_words, read_line, read_lines,
}
use basta.SniProxy.Settings.Words.{show_addr-IsWord}

graphic_no_feed : (w : Bytes) → All IsGraphic w → All (λ c. c ≢ 10) w
graphic_no_feed [] h = tt
graphic_no_feed (c ∷ w) h = (λ e. omega (arith, h.0.0, e), graphic_no_feed w h.1)

graphic_no_return : (w : Bytes) → All IsGraphic w → All (λ c. c ≢ 13) w
graphic_no_return [] h = tt
graphic_no_return (c ∷ w) h = (λ e. omega (arith, h.0.0, e), graphic_no_return w h.1)

-- A line that is a keyword and one word.
line_words :
    (k : ℕ) (key w : Bytes)
    → All IsGraphic (k ∷ key)
    → IsWord w
    → (c : Draft) → read_line ((k ∷ key) ++ 32 ∷ w) c ≡ read_words ((k ∷ key) ∷ w ∷ []) c
unfolding read_line split_whitespace
line_words k key w h i c =
    ap (λ b. if b then ok c else read_words (split_whitespace ((k ∷ key) ++ 32 ∷ w)) c)
      (is_empty-trim k (key ++ 32 ∷ w) h.0)
    ∙ ap (λ ws. read_words ws c)
        (word_before (k ∷ key) w h ∙ ap (λ ws. (k ∷ key) ∷ ws) (word_last w i))

pub pid_read :
    (z : ℤ)
    → IsI32 z
    → (c : Draft) → read_words (codes "pid" ∷ show_i32 z ∷ []) c ≡ ok (record c { pid = some z })
unfolding read_words eq_bytes
pid_read z h c = rw (parse_i32-show_i32 z h) refl

pub port_read :
    (n : ℕ)
    → n < 65536
    → (c : Draft) → read_words (codes "port" ∷ decimal n ∷ []) c ≡ ok (record c { port = some n })
unfolding read_words eq_bytes
port_read n h c = rw (parse_uint-decimal 65535 n (omega (arith, h)) (omega (arith, h))) refl

pub mark_read :
    (n : ℕ)
    → n < 4294967296
    → (c : Draft) → read_words (codes "mark" ∷ decimal n ∷ []) c ≡ ok (record c { mark = some n })
unfolding read_words eq_bytes
mark_read n h c = rw (parse_uint-decimal 4294967295 n (omega (arith, h)) (omega (arith, h))) refl

-- A word with addresses behind it.
addr_words_read :
    (w : Bytes) (xs : List Ipv4Addr)
    → IsWord w
    → words_from 0 [] (w ++ addr_words xs) ≡ w ∷ map show_addr xs
addr_words_read w [] h = ap (words_from 0 []) (append-nil w) ∙ word_last w h
addr_words_read w (x ∷ xs) h =
    word_before w (show_addr x ++ (addr_words xs ++ [])) h
    ∙ ap (λ s. w ∷ words_from 0 [] (show_addr x ++ s)) (append-nil (addr_words xs))
    ∙ ap (λ ws. w ∷ ws) (addr_words_read (show_addr x) xs (show_addr-IsWord x))

parse_addrs-show : (xs : List Ipv4Addr) → All IsAddr xs → parse_addrs (map show_addr xs) ≡ ok xs
unfolding parse_addrs
parse_addrs-show [] h = refl
parse_addrs-show (x ∷ xs) h = rw (parse_ipv4-show_addr x h.0) (rw (parse_addrs-show xs h.1) refl)

-- A name and addresses that a line can carry.
pub record IsEntry (r : SniRule) : Type 0 where
  pub word : IsWord r.host
  pub lower : to_ascii_lowercase r.host ≡ r.host
  pub pinned : is_empty r.addrs ≡ false
  pub octets : All IsAddr r.addrs

host_text : SniRule → Bytes
host_text r = codes "host" ++ 32 ∷ (r.host ++ addr_words r.addrs)

host_read :
    (r : SniRule)
    → IsEntry r
    → (c : Draft)
    → read_words (codes "host" ∷ r.host ∷ map show_addr r.addrs) c
      ≡ ok (record c { allow = allow_insert r.host r.addrs c.allow })
unfolding read_words eq_bytes
host_read r h c = rw (parse_addrs-show r.addrs h.octets) (rw (h.pinned) (rw (h.lower) refl))

host_text-read :
    (r : SniRule)
    → IsEntry r
    → (c : Draft)
    → read_line (host_text r) c ≡ ok (record c { allow = allow_insert r.host r.addrs c.allow })
unfolding read_line split_whitespace host_text
host_text-read r h c =
    ap (λ b. if b then ok c else read_words (split_whitespace (host_text r)) c)
      (is_empty-trim b'h' _ (omega arith, omega arith))
    ∙ ap (λ ws. read_words ws c)
        (word_before (codes "host") (r.host ++ addr_words r.addrs) (omega arith)
          ∙ ap (λ ws. codes "host" ∷ ws) (addr_words_read r.host r.addrs h.word))
    ∙ host_read r h c

-- No byte of a line of this form ends it.
addr_words-All :
    (P : ℕ → Type 0) (xs : List Ipv4Addr)
    → P 32
    → ((w : Bytes) → All IsGraphic w → All P w)
    → All P (addr_words xs)
addr_words-All P [] sp h = tt
addr_words-All P (x ∷ xs) sp h = (
  sp,
  All-append_intro P (show_addr x) _ (h _ (IsWord-IsGraphic _ (show_addr-IsWord x)))
      (All-append_intro P (addr_words xs) [] (addr_words-All P xs sp h) tt),
)

host_text-All :
    (P : ℕ → Type 0) (r : SniRule)
    → IsEntry r
    → P 32
    → ((w : Bytes) → All IsGraphic w → All P w)
    → All P (host_text r)
unfolding host_text
host_text-All P r e sp h =
    All-append_intro P (codes "host") (32 ∷ (r.host ++ addr_words r.addrs))
      (h (codes "host") (omega arith))
      (
        sp,
        All-append_intro P r.host _ (h r.host (IsWord-IsGraphic _ e.word))
            (addr_words-All P r.addrs sp h),
      )

unfoldable pub enter_all :
    List SniRule → List (Bytes × List Ipv4Addr) → List (Bytes × List Ipv4Addr)
enter_all [] a = a
enter_all (r ∷ rs) a = enter_all rs (allow_insert r.host r.addrs a)

sni_lines-cons :
    (r : SniRule) (rs : List SniRule) → sni_lines (r ∷ rs) ≡ host_text r ++ 10 ∷ sni_lines rs
unfolding host_text
sni_lines-cons r rs =
    ap (λ s. codes "host " ++ (r.host ++ (addr_words r.addrs ++ 10 ∷ s)))
      (append-nil (sni_lines rs))
    ∙ ap (λ s. codes "host " ++ s)
        (sym (append_assoc r.host (addr_words r.addrs) (10 ∷ sni_lines rs)))

then_lines :
    (l : Bytes) (ls : List Bytes) (c d : Draft)
    → read_line l c ≡ ok d
    → read_lines (l ∷ ls) c ≡ read_lines ls d
unfolding read_lines
then_lines l ls c d h = rw h refl

pub sni_lines-read :
    (rs : List SniRule)
    → All IsEntry rs
    → (c : Draft)
    → read_lines (lines (sni_lines rs)) c ≡ ok (record c { allow = enter_all rs c.allow })
unfolding read_lines enter_all lines end_lines split
sni_lines-read [] h c = refl
sni_lines-read (r ∷ rs) h c =
    ap (λ t. read_lines (lines t) c) (sni_lines-cons r rs)
    ∙ ap (λ ls. read_lines ls c)
        (lines-append (host_text r) (sni_lines rs)
          (host_text-All (λ b. b ≢ 10) r h.0 (λ e. omega (arith, e)) graphic_no_feed)
          (host_text-All (λ b. b ≢ 13) r h.0 (λ e. omega (arith, e)) graphic_no_return))
    ∙ then_lines (host_text r) (lines (sni_lines rs)) c _ (host_text-read r h.0 c)
    ∙ sni_lines-read rs h.1 (record c { allow = allow_insert r.host r.addrs c.allow })

-- A line that is a keyword and one word, and more lines.
pub key_line-read :
    (k : ℕ) (key w rest : Bytes)
    → All IsGraphic (k ∷ key)
    → IsWord w
    → (c d : Draft) → read_words ((k ∷ key) ∷ w ∷ []) c ≡ ok d
    → read_lines (lines (((k ∷ key) ++ 32 ∷ w) ++ 10 ∷ rest)) c ≡ read_lines (lines rest) d
key_line-read k key w rest h i c d e =
    let l : Bytes = (k ∷ key) ++ 32 ∷ w in
    let whole : (P : ℕ → Type 0) → P 32 → ((v : Bytes) → All IsGraphic v → All P v) → All P l =
      λ P sp f.
        All-append_intro P (k ∷ key) (32 ∷ w) (f (k ∷ key) h) (sp, f w (IsWord-IsGraphic w i)) in
    ap (λ ls. read_lines ls c)
      (lines-append l rest (whole (λ b. b ≢ 10) (λ e'. omega (arith, e')) graphic_no_feed)
        (whole (λ b. b ≢ 13) (λ e'. omega (arith, e')) graphic_no_return))
    ∙ then_lines l (lines rest) c d (line_words k key w h i c ∙ e)

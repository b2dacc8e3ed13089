-- ===== src/Net/Http/Url.antt =====
-- The addresses to which net/http_protocol.c sends its requests.
use multi_port_convertor.Base.{
  ℕ, ◌+◌, ◌≤◌, ◌<◌, ◌≡◌, false, List, [], ◌∷◌, ◌++◌, arith, Outcome, done, ◌>>=◌, copy, text_copied,
  has, length, length-append, length-replicate, drop, replicate,
}
use multi_port_convertor.Uart.Reply.{c_string, format_alone}
use multi_port_convertor.Uart.Reply.Plain.{format_alone-plain}

-- "http://"
abbrev pub scheme : List ℕ
scheme = b'h' ∷ b't' ∷ b't' ∷ b'p' ∷ b':' ∷ b'/' ∷ b'/' ∷ []

-- "/dataservice/blood_pressure/add"
abbrev pub add_path : List ℕ
add_path =
    b'/' ∷ b'd' ∷ b'a' ∷ b't' ∷ b'a' ∷ b's' ∷ b'e' ∷ b'r' ∷ b'v' ∷ b'i' ∷ b'c' ∷ b'e' ∷ b'/' ∷ b'b'
    ∷ b'l' ∷ b'o' ∷ b'o' ∷ b'd' ∷ b'_' ∷ b'p' ∷ b'r' ∷ b'e' ∷ b's' ∷ b's' ∷ b'u' ∷ b'r' ∷ b'e'
    ∷ b'/' ∷ b'a' ∷ b'd' ∷ b'd' ∷ []

-- "/dataservice/blood_pressure/get_time"
abbrev pub time_path : List ℕ
time_path =
    b'/' ∷ b'd' ∷ b'a' ∷ b't' ∷ b'a' ∷ b's' ∷ b'e' ∷ b'r' ∷ b'v' ∷ b'i' ∷ b'c' ∷ b'e' ∷ b'/' ∷ b'b'
    ∷ b'l' ∷ b'o' ∷ b'o' ∷ b'd' ∷ b'_' ∷ b'p' ∷ b'r' ∷ b'e' ∷ b's' ∷ b's' ∷ b'u' ∷ b'r' ∷ b'e'
    ∷ b'/' ∷ b'g' ∷ b'e' ∷ b't' ∷ b'_' ∷ b't' ∷ b'i' ∷ b'm' ∷ b'e' ∷ []

-- What the three calls of `sprintf` leave in the array `url` of 256 bytes. The name of the server is the
-- format of the second.
unfoldable pub url_of : (g_domain path : List ℕ) → Outcome (List ℕ)
url_of g_domain path = do
  name ← c_string g_domain
  domain ← format_alone name
  copy (replicate 256 0) 0 ((scheme ++ (domain ++ path)) ++ (0 ∷ []))

-- The array holds a text that is no format and ends inside it.
pub record IsNamed (g_domain : List ℕ) : Type 0 where
  pub domain : List ℕ
  pub text : c_string g_domain ≡ done domain
  pub no_format : has b'%' domain ≡ false
  pub short : length domain < 128

pub url_of-done :
    (g_domain path : List ℕ)
    → IsNamed g_domain
    → length path ≤ 40
    → (url : List ℕ) × (url_of g_domain path ≡ done url)
unfolding url_of
url_of-done g_domain path n h =
    let u = scheme ++ (n.domain ++ path) in
    let l : length u < length (replicate {A = ℕ} 256 0) =
      omega (arith, n.short, length-append n.domain path, length-replicate {A = ℕ} 256 0) in
    (
      u ++ (0 ∷ drop (length u + 1) (replicate 256 0)),
      rw (n.text, format_alone-plain n.domain n.no_format) (text_copied (replicate 256 0) u l),
    )

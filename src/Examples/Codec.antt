-- ===== src/Examples/Codec.antt =====
-- A concrete `Libraries`: a token is the text of its claims, in unary.
use fastapi_template.Prelude.{
  ℕ, zero, suc, ◌≤◌, ◌<◌, String, ◌≡◌, refl, ap, ◌∙◌, Bool, true, false, not, Option, none, some,
  [], ◌∷◌, arith, ltb, if◌then◌else◌, ◌==◌, nat_eq, string_eq, option_eq,
}
use fastapi_template.Rbac.Mask.{Text}
use fastapi_template.Auth.Token.{TokenPayload, Libraries}
use Prim.Native.Char.{code}
use fastapi_template.Prelude.Lists.{length}

put : ℕ → String → String
put zero s = String.◌∷◌ "b" s
put (suc n) s = String.◌∷◌ "a" (put n s)

-- The number that a text starts with.
get : String → ℕ × String
get String.[] = (0, String.[])
get (String.◌∷◌ c s) = let (n, rest) = get s in if code c == 97 then (suc n, rest) else (0, s)

get-put : (n : ℕ) (s : String) → get (put n s) ≡ (n, s)
unfolding get put
get-put zero s = refl
get-put (suc n) s = ap (λ (r : ℕ × String). (suc r.0, r.1)) (get-put n s)

put_all : Text → String → String
unfolding put
put_all [] s = put 0 s
put_all (n ∷ ns) s = put 1 (put n (put_all ns s))

-- The list that a text starts with, on fuel.
get_all : ℕ → String → Text × String
unfolding get
get_all zero s = ([], s)
get_all (suc fuel) s =
    let (more, s1) = get s in
    let (n, s2) = get s1 in
    let (ns, s3) = get_all fuel s2 in if more == 0 then ([], s1) else (n ∷ ns, s3)

get_all-put_all : (ns : Text) (s : String) → get_all (suc (length ns)) (put_all ns s) ≡ (ns, s)
unfolding get_all put_all
get_all-put_all [] s = ground (arith, get-put 0 s)
get_all-put_all (n ∷ ns) s =
    ground (arith, get-put 1 (put n (put_all ns s)), get-put n (put_all ns s), get_all-put_all ns s)

opt : Option ℕ → ℕ
opt none = 0
opt (some n) = suc n

unopt : ℕ → Option ℕ
unopt zero = none
unopt (suc n) = some n

bit : Bool → ℕ
bit true = 1
bit false = 0

pub encode : TokenPayload → String
unfolding put put_all opt bit
encode p = put p.id (
    put (opt p.tenant_id) (
      put (bit p.is_superuser) (
        put p.perm_version
          (put p.exp (put (suc (length p.perm_mask)) (put_all p.perm_mask p.auth_method))))))

parse : String → TokenPayload
unfolding get get_all unopt
parse s =
    let (id, s1) = get s in
    let (tenant, s2) = get s1 in
    let (super, s3) = get s2 in
    let (version, s4) = get s3 in
    let (exp, s5) = get s4 in
    let (fuel, s6) = get s5 in
    let (mask, rest) = get_all fuel s6 in
    record {
      id = id;
      tenant_id = unopt tenant;
      is_superuser = not (super == 0);
      perm_mask = mask;
      perm_version = version;
      exp = exp;
      auth_method = rest;
    }

unopt-opt : (o : Option ℕ) → unopt (opt o) ≡ o
unfolding unopt opt
unopt-opt none = refl
unopt-opt (some n) = refl

bit-back : (b : Bool) → not (bit b == 0) ≡ b
unfolding bit
bit-back true = ground arith
bit-back false = ground arith

parse-encode : (p : TokenPayload) → parse (encode p) ≡ p
unfolding parse encode
parse-encode p =
    let s6 = put_all p.perm_mask p.auth_method in
    let s5 = put (suc (length p.perm_mask)) s6 in
    let s4 = put p.exp s5 in
    let s3 = put p.perm_version s4 in
    let s2 = put (bit p.is_superuser) s3 in
    let s1 = put (opt p.tenant_id) s2 in
    ground (
      arith,
      get-put p.id s1,
      get-put (opt p.tenant_id) s2,
      get-put (bit p.is_superuser) s3,
      get-put p.perm_version s4,
      get-put p.exp s5,
      get-put (suc (length p.perm_mask)) s6,
      get_all-put_all p.perm_mask p.auth_method,
      unopt-opt p.tenant_id,
      bit-back p.is_superuser,
    )

pub decode : ℕ → String → Option TokenPayload
unfolding parse
decode now s = let p = parse s in if ltb now p.exp then some p else none

pub decode-encode : (now : ℕ) (p : TokenPayload) → now < p.exp → decode now (encode p) ≡ some p
unfolding decode
decode-encode now p h =
    ap (λ q. if ltb now q.exp then some q else none) (parse-encode p) ∙ ground arith

pub decode-expired : (now : ℕ) (p : TokenPayload) → p.exp ≤ now → decode now (encode p) ≡ none
unfolding decode
decode-expired now p h =
    ap (λ q. if ltb now q.exp then some q else none) (parse-encode p) ∙ ground arith

-- Access tokens live ten ticks and refresh tokens a hundred; a hash is the password itself.
abbrev pub libraries : Libraries
libraries = record {
  encode_access = encode;
  decode_access = decode;
  encode_refresh = λ user_id exp jti. jti;
  access_life = 10;
  refresh_life = 100;
  hashpw = λ s. s;
  checkpw = λ plain hashed. plain == hashed;
  decode-encode = decode-encode;
  decode-expired = decode-expired;
}

-- ===== src/Rsa/Key/Loaded.antt =====
-- The key of the source is one that `rsa_sign` can use.
use tetd_test.Base.{
  subst, ap, ◌<◌, ◌^◌, ℕ, ◌-◌, ◌*◌, ◌%◌, ◌≤◌, ◌≡◌, refl, ◌∙◌, List, [], ◌∷◌, Bool, true, arith,
  length, drop, leb, leb→le, if◌then◌else◌, some, ◌>>=◌, Bool-cases, inl, inr, false, sym,
}
use mathlib.Core.Bool.{true≢false}
use tetd_test.Bignum.Value.{val, IsBn}
use tetd_test.Bignum.Text.{is_hex, read_string, from_string}
use tetd_test.Bignum.Text.Laws.{AreHex, hex_number, read_string-IsBn, val-read_string}
use tetd_test.Rsa.Key.{hex_n, hex_d, hex_p, hex_q, hex_dp, hex_dq, hex_qinv, loaded_key}
use tetd_test.Rsa.Bytes.Laws.{AreBytes, big_endian}
use tetd_test.Rsa.Sign.{Key, rsa_sign}
use tetd_test.Rsa.Sign.Crt.{IsFactor, IsKey}
use tetd_test.Rsa.Sign.Laws.{rsa_sign-IsSignature}

all_hex : List ℕ → Bool
all_hex [] = true
all_hex (c ∷ s) = let rest = all_hex s in if is_hex c then rest else false

all_hex→AreHex : (s : List ℕ) → all_hex s ≡ true → AreHex s
unfolding all_hex
all_hex→AreHex [] h = tt
all_hex→AreHex (c ∷ s) h = elim (Bool-cases (is_hex c)) [
  | inl e ↦ (e, all_hex→AreHex s (rw e at h))
  | inr e ↦ absurd (true≢false (sym (rw e at h)))
]

-- A text of hexadecimal digits loads as the number `v`.
loads :
    (s : List ℕ) (v : ℕ)
    → all_hex s ≡ true
    → leb (length s) 776 ≡ true
    → hex_number (drop (length s % 8) s) ≡ v
    → IsBn (read_string s) × (val (read_string s) ≡ v)
loads s v h l e =
    let hs = all_hex→AreHex s h in
    let fits = leb→le (length s) 776 l in
    (read_string-IsBn s hs fits, val-read_string s hs fits ∙ e)

abbrev p_value : ℕ
p_value =
    0xea5640bbc5535566424d91d3f7421b09fb05702a43e4efa31e6cd1947edb20b33b564182ce682a42336dc4ec11bd3adcb355f372e436df97d888888c242360ebfdd75cc3edd9c3bf51d215c0aabc821f984305783c5677cf2f1ab6ae069075448ed55cbea218ee6378253e80ea3f4af62e4eaeb48ab33f19f7e199d51cc05f9271037972edfeb2922439718a42cc4187c88b7c31d44608a5f641473ea3bbbaea3338d43059f3de1612cd19058d85b470b3c95824cf659eb897f93b110f1bd3d9

p-loads : IsBn (read_string hex_p) × (val (read_string hex_p) ≡ p_value)
unfolding all_hex hex_number
p-loads = loads hex_p p_value refl refl refl

abbrev q_value : ℕ
q_value =
    0xcfab4117838cdefc5410c543c1b942e97c9753de4b1e05b567e8292bdd25713351aa6b8109f7e4491944ca9a99b968b48c78040cb8d87bc1271422ea9e3d309ebed4965f8b4bcb32b8ed3daeb0639dd1bd63986410a3a8c06e8c034c5c6a06dae4bbdb307ee2c198b69afc67901d0a19b51f00ae0723ce9befe56d476d6f794d55c67e61f9c8bf76c3774b02c1005f3efa1465359b9b10e97da33c44703da11f1ef0455c74acf7dffe3b7be8711ffa2ae678d48b8b0e4b9e8bccbc9e8b1bdc3f

q-loads : IsBn (read_string hex_q) × (val (read_string hex_q) ≡ q_value)
unfolding all_hex hex_number
q-loads = loads hex_q q_value refl refl refl

abbrev dp_value : ℕ
dp_value =
    0x80f75f40f7e45907a24dd687f578683121f968359a901062918809ffd3a0fd6a26a9ddfc0364c87d0e98c6dbb51793a18b012eae7872cab362f421521f416941f7bde2cbe1c70b37ebebd714e5e2412aea3d587147a3bee443644c4d92474682a8a93c159e58623a54110b491fa21dbb46d8fec555e038462e69f6a396e338b5fb8491fe7284cdfa27fd85433667fb58a34240e39b93bf86b6f44e25672f163b765d3c4a2ff74aae93425516fd402c822a30115690ddb87097130f32e041cc61

dp-loads : IsBn (read_string hex_dp) × (val (read_string hex_dp) ≡ dp_value)
unfolding all_hex hex_number
dp-loads = loads hex_dp dp_value refl refl refl

abbrev dq_value : ℕ
dq_value =
    0x39d37d0f9820fce294620b1bfff09f7236b048b9487f76a579e68ab85d1f14f36e551f14527b458519552f79773ecaaa23c733917b5344ba9730233ce38d3461afcfb083b05d0d9af525929c771f760db647ea624ac3d7b4a5d3b503696458be511d023ef1c620946e9c9f9612ea132aef654fa225f8d18a5875b1454772d7fb31dc50cae56c01ec87274baadba547e058709f721aff45e94e83cabf5fe5b95cda179ba8d0106e0160609df32eb4f1cb4a5bf10b5e503fbc493f5c726557ffaf

dq-loads : IsBn (read_string hex_dq) × (val (read_string hex_dq) ≡ dq_value)
unfolding all_hex hex_number
dq-loads = loads hex_dq dq_value refl refl refl

abbrev qinv_value : ℕ
qinv_value =
    0xae172813b4ef72775c2798b194348355cb7e7f74947d364b83f6e296e9e00559efb482990ad4fb335b9cb6ed7c68d5a19d244bade44292d94f33010f3815a991c0211990a002ef686c35ecd3e0602129bb1e35bf9cd5663b52ce9c97154fcfca8d5403e6c59de8e785ee64b3ab6b7593f0c899ea9f823f22b5cbeb766b8fbe8b232143dd9a28c0f0550b87fedb19cdf52e02009773b9cdc722cace719b3665d93bf21dadac7d5669bbfb14000ef48f66c174bbc24739987c3a6b20eb9da62152

qinv-loads : IsBn (read_string hex_qinv) × (val (read_string hex_qinv) ≡ qinv_value)
unfolding all_hex hex_number
qinv-loads = loads hex_qinv qinv_value refl refl refl

loaded_p-IsFactor : IsFactor (read_string hex_p)
loaded_p-IsFactor = record {
  bn = p-loads.0;
  odd = rw p-loads.1 refl;
  wide = rw p-loads.1 (omega arith);
  small = rw p-loads.1 (omega arith);
}

loaded_q-IsFactor : IsFactor (read_string hex_q)
loaded_q-IsFactor = record {
  bn = q-loads.0;
  odd = rw q-loads.1 refl;
  wide = rw q-loads.1 (omega arith);
  small = rw q-loads.1 (omega arith);
}

-- The key of the numbers that the constants stand for.
abbrev constants_key : Key
constants_key = record {
  p = read_string hex_p;
  q = read_string hex_q;
  dp = read_string hex_dp;
  dq = read_string hex_dq;
  qinv = read_string hex_qinv;
}

-- The constants pass the assertions on their lengths.
loaded_key-eq-constants : loaded_key ≡ some constants_key
unfolding loaded_key from_string
loaded_key-eq-constants = refl

-- The numbers that the program loads make a key that `rsa_sign` can use.
constants_key-IsKey : IsKey constants_key
constants_key-IsKey = record {
  p_factor = loaded_p-IsFactor;
  q_factor = loaded_q-IsFactor;
  dp_bn = dp-loads.0;
  dq_bn = dq-loads.0;
  qinv_bn = qinv-loads.0;
  q-le-p = rw (q-loads.1, p-loads.1) (omega arith);
  dp-lt = rw (dp-loads.1, p-loads.1) (omega arith);
  dq-lt = rw (dq-loads.1, q-loads.1) (omega arith);
  qinv-lt = rw (qinv-loads.1, p-loads.1) (omega arith);
  inverse = rw (qinv-loads.1, q-loads.1, p-loads.1) refl;
}

abbrev n_value : ℕ
n_value =
    0xbe18818a7e95c519e0be692f0ca7f4a6da1522e2d40f0a256ee5d073d9230215b4566c6951a70b3b667ab7f893f6bbff3ac88173694d6c31cee8c2f263772720080b44656c690ef50fd579da476e2dc76fd4be713b68854b645828130aae5e57da604c45811fff3f368405d8ef8fbaf3904e934d55a273cf607b3f7b48dcc9ea6886f62091da7a68368d98685152dfe30927c18df8ab072ef2d81d8d44e92e8ef5a385ee45bdab8cd0b6588b53b5e6644eae3dc175ee58081a8099b66f1d043761e3cdb49e4a9402890830395264dcb65127630a53550bb0a3e942c6644267b75cd33bf1cb8d8fbcfb1b88ced120747e3ad90881cc7b2d2c8f0c1e542332148279d09649c03270bcb9632c4d51fd1a7a168208eb1d6d04f94da86db850396281f31813510f333b68c4f3c1fdf9090291ac9f80d4bd440fae5c1e47220ddd2a6847158670a476ec0be66150316a847240fa4bbeb9a894d7f90fa18275dbc7f0e9e8dbb031456ab60f0495cb3db4c80d6cb73671ba617f812479c50212ccca9e67

n-loads : IsBn (read_string hex_n) × (val (read_string hex_n) ≡ n_value)
unfolding all_hex hex_number
n-loads = loads hex_n n_value refl refl refl

abbrev d_value : ℕ
d_value =
    0x0e84373ae8ee6da8cb92d43175994b2e300536841fdc2e282c4f271b51aa420f2a40574860fb37f90745b9257b1722701bd5bd479f9e51497f1acdeda34edc11597692cddea37f32e8f74d0b85879268b7cf8538dc67df95f6f461cb0d2117af44768a1c875476dcd040460f5f9698438a9cead4185aaed6ad457c298bfce05122e8fb84028a03eda5622c10a5f5303259914c4f427d67afb177c8cf459890fcf5cbd0ff20704583715a1b6a385af1b1c34311bae3a899d709e9bc2899aa4642055a05f565326f04508c4be52c49496c291f542e81b175bcb0e03bf274a5a265af1923350f419b00bce8389bc67f30a732dc90d09be7c89436a5df7301b668cbf1090a89c7c48cbc3a433a326916f842d7dcbefb834b8d74775909ed7d0a8a9eb1a2636a6d134220695a9ca6e03a363317b6d2df11c08c9ff9326dd47df90efadf8be58e05b0ae1e95c32238871239259e240fb8a6ffd83b49b0a5bf75d15413cfd8ea2166638580ccf32c5740a4b5f23e1b213d3775d919967198222475e2a1

d-loads : IsBn (read_string hex_d) × (val (read_string hex_d) ≡ d_value)
unfolding all_hex hex_number
d-loads = loads hex_d d_value refl refl refl

-- The other constants go with them: the modulus is the product, and the exponents are those of `d`.
pub loaded_key-parts :
    (val (read_string hex_n) ≡ val (read_string hex_p) * val (read_string hex_q))
    × (val (read_string hex_dp) ≡ val (read_string hex_d) % (val (read_string hex_p) - 1))
    × (val (read_string hex_dq) ≡ val (read_string hex_d) % (val (read_string hex_q) - 1))
loaded_key-parts =
    rw (n-loads.1, p-loads.1, q-loads.1, dp-loads.1, dq-loads.1, d-loads.1) (refl, refl, refl)

-- A signature under the constants of the program: 384 bytes, a number below the modulus, with the
-- powers of the hash by the private exponent, reduced for each factor, as its residues.
pub record IsProgramSignature (hash sig : List ℕ) : Type 0 where
  pub width : length sig ≡ 384
  pub bytes : AreBytes sig
  pub range : big_endian sig < val (read_string hex_n)
  pub residue_p :
      big_endian sig % val (read_string hex_p)
      ≡ big_endian hash ^ (val (read_string hex_d) % (val (read_string hex_p) - 1))
        % val (read_string hex_p)
  pub residue_q :
      big_endian sig % val (read_string hex_q)
      ≡ big_endian hash ^ (val (read_string hex_d) % (val (read_string hex_q) - 1))
        % val (read_string hex_q)

-- The constants pass the assertions of `bignum_from_string`, and with the key that the program
-- loads from them, and for every hash of 32 bytes, `rsa_sign` returns, once each division loop
-- may make 3105 rounds, and writes 384 bytes that stand, the most significant first, for a number
-- below the modulus `n` that is congruent to `hash ^ (d mod (p - 1))` modulo `p` and to `hash ^
-- (d mod (q - 1))` modulo `q`, for the loaded `n`, `d`, `p` and `q`.
pub loaded_key-signs :
    (hash : List ℕ)
    → AreBytes hash
    → length hash ≡ 32
    → (fuel : ℕ) → 3105 ≤ fuel
    → (sig : List ℕ) × ((loaded_key >>= λ key. rsa_sign fuel key hash) ≡ some sig)
      × IsProgramSignature hash sig
loaded_key-signs hash hb size fuel enough =
    let (sig, e, s) =
      rsa_sign-IsSignature constants_key constants_key-IsKey hash hb size fuel enough in
    let (n_parts, dp_part, dq_part) = loaded_key-parts in
    (
      sig,
      rw loaded_key-eq-constants e,
      record {
        width = s.width;
        bytes = s.bytes;
        range = subst (λ t. big_endian sig < t) (sym n_parts) s.range;
        residue_p =
            s.residue_p ∙ ap (λ (t : ℕ). big_endian hash ^ t % val (read_string hex_p)) dp_part;
        residue_q =
            s.residue_q ∙ ap (λ (t : ℕ). big_endian hash ^ t % val (read_string hex_q)) dq_part;
      },
    )

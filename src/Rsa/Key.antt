-- ===== src/Rsa/Key.antt =====
-- The key of `rsa_sign`: the hexadecimal constants, and what `hex_to_bn` makes of them.
pub mod Loaded
use tetd_test.Base.{ℕ, List, ◌++◌, codes, Option, some, ◌>>=◌}
use tetd_test.Bignum.{Bn}
use tetd_test.Bignum.Text.{from_string}
use tetd_test.Rsa.Sign.{Key}

abbrev pub hex_n : List ℕ
hex_n =
    codes "be18818a7e95c519e0be692f0ca7f4a6da1522e2d40f0a256ee5d073d9230215"
    ++ codes "b4566c6951a70b3b667ab7f893f6bbff3ac88173694d6c31cee8c2f263772720"
    ++ codes "080b44656c690ef50fd579da476e2dc76fd4be713b68854b645828130aae5e57"
    ++ codes "da604c45811fff3f368405d8ef8fbaf3904e934d55a273cf607b3f7b48dcc9ea"
    ++ codes "6886f62091da7a68368d98685152dfe30927c18df8ab072ef2d81d8d44e92e8e"
    ++ codes "f5a385ee45bdab8cd0b6588b53b5e6644eae3dc175ee58081a8099b66f1d0437"
    ++ codes "61e3cdb49e4a9402890830395264dcb65127630a53550bb0a3e942c6644267b7"
    ++ codes "5cd33bf1cb8d8fbcfb1b88ced120747e3ad90881cc7b2d2c8f0c1e5423321482"
    ++ codes "79d09649c03270bcb9632c4d51fd1a7a168208eb1d6d04f94da86db850396281"
    ++ codes "f31813510f333b68c4f3c1fdf9090291ac9f80d4bd440fae5c1e47220ddd2a68"
    ++ codes "47158670a476ec0be66150316a847240fa4bbeb9a894d7f90fa18275dbc7f0e9"
    ++ codes "e8dbb031456ab60f0495cb3db4c80d6cb73671ba617f812479c50212ccca9e67"

abbrev pub hex_d : List ℕ
hex_d =
    codes "0e84373ae8ee6da8cb92d43175994b2e300536841fdc2e282c4f271b51aa420f"
    ++ codes "2a40574860fb37f90745b9257b1722701bd5bd479f9e51497f1acdeda34edc11"
    ++ codes "597692cddea37f32e8f74d0b85879268b7cf8538dc67df95f6f461cb0d2117af"
    ++ codes "44768a1c875476dcd040460f5f9698438a9cead4185aaed6ad457c298bfce051"
    ++ codes "22e8fb84028a03eda5622c10a5f5303259914c4f427d67afb177c8cf459890fc"
    ++ codes "f5cbd0ff20704583715a1b6a385af1b1c34311bae3a899d709e9bc2899aa4642"
    ++ codes "055a05f565326f04508c4be52c49496c291f542e81b175bcb0e03bf274a5a265"
    ++ codes "af1923350f419b00bce8389bc67f30a732dc90d09be7c89436a5df7301b668cb"
    ++ codes "f1090a89c7c48cbc3a433a326916f842d7dcbefb834b8d74775909ed7d0a8a9e"
    ++ codes "b1a2636a6d134220695a9ca6e03a363317b6d2df11c08c9ff9326dd47df90efa"
    ++ codes "df8be58e05b0ae1e95c32238871239259e240fb8a6ffd83b49b0a5bf75d15413"
    ++ codes "cfd8ea2166638580ccf32c5740a4b5f23e1b213d3775d919967198222475e2a1"

abbrev pub hex_p : List ℕ
hex_p =
    codes "ea5640bbc5535566424d91d3f7421b09fb05702a43e4efa31e6cd1947edb20b3"
    ++ codes "3b564182ce682a42336dc4ec11bd3adcb355f372e436df97d888888c242360eb"
    ++ codes "fdd75cc3edd9c3bf51d215c0aabc821f984305783c5677cf2f1ab6ae06907544"
    ++ codes "8ed55cbea218ee6378253e80ea3f4af62e4eaeb48ab33f19f7e199d51cc05f92"
    ++ codes "71037972edfeb2922439718a42cc4187c88b7c31d44608a5f641473ea3bbbaea"
    ++ codes "3338d43059f3de1612cd19058d85b470b3c95824cf659eb897f93b110f1bd3d9"

abbrev pub hex_q : List ℕ
hex_q =
    codes "cfab4117838cdefc5410c543c1b942e97c9753de4b1e05b567e8292bdd257133"
    ++ codes "51aa6b8109f7e4491944ca9a99b968b48c78040cb8d87bc1271422ea9e3d309e"
    ++ codes "bed4965f8b4bcb32b8ed3daeb0639dd1bd63986410a3a8c06e8c034c5c6a06da"
    ++ codes "e4bbdb307ee2c198b69afc67901d0a19b51f00ae0723ce9befe56d476d6f794d"
    ++ codes "55c67e61f9c8bf76c3774b02c1005f3efa1465359b9b10e97da33c44703da11f"
    ++ codes "1ef0455c74acf7dffe3b7be8711ffa2ae678d48b8b0e4b9e8bccbc9e8b1bdc3f"

abbrev pub hex_dp : List ℕ
hex_dp =
    codes "80f75f40f7e45907a24dd687f578683121f968359a901062918809ffd3a0fd6a"
    ++ codes "26a9ddfc0364c87d0e98c6dbb51793a18b012eae7872cab362f421521f416941"
    ++ codes "f7bde2cbe1c70b37ebebd714e5e2412aea3d587147a3bee443644c4d92474682"
    ++ codes "a8a93c159e58623a54110b491fa21dbb46d8fec555e038462e69f6a396e338b5"
    ++ codes "fb8491fe7284cdfa27fd85433667fb58a34240e39b93bf86b6f44e25672f163b"
    ++ codes "765d3c4a2ff74aae93425516fd402c822a30115690ddb87097130f32e041cc61"

abbrev pub hex_dq : List ℕ
hex_dq =
    codes "39d37d0f9820fce294620b1bfff09f7236b048b9487f76a579e68ab85d1f14f3"
    ++ codes "6e551f14527b458519552f79773ecaaa23c733917b5344ba9730233ce38d3461"
    ++ codes "afcfb083b05d0d9af525929c771f760db647ea624ac3d7b4a5d3b503696458be"
    ++ codes "511d023ef1c620946e9c9f9612ea132aef654fa225f8d18a5875b1454772d7fb"
    ++ codes "31dc50cae56c01ec87274baadba547e058709f721aff45e94e83cabf5fe5b95c"
    ++ codes "da179ba8d0106e0160609df32eb4f1cb4a5bf10b5e503fbc493f5c726557ffaf"

abbrev pub hex_qinv : List ℕ
hex_qinv =
    codes "ae172813b4ef72775c2798b194348355cb7e7f74947d364b83f6e296e9e00559"
    ++ codes "efb482990ad4fb335b9cb6ed7c68d5a19d244bade44292d94f33010f3815a991"
    ++ codes "c0211990a002ef686c35ecd3e0602129bb1e35bf9cd5663b52ce9c97154fcfca"
    ++ codes "8d5403e6c59de8e785ee64b3ab6b7593f0c899ea9f823f22b5cbeb766b8fbe8b"
    ++ codes "232143dd9a28c0f0550b87fedb19cdf52e02009773b9cdc722cace719b3665d9"
    ++ codes "3bf21dadac7d5669bbfb14000ef48f66c174bbc24739987c3a6b20eb9da62152"

abbrev pub hex_e : List ℕ
hex_e = codes "010001"

-- `hex_to_bn`
abbrev pub hex_to_bn : List ℕ → Option Bn
hex_to_bn hex = from_string hex

-- The calls of `hex_to_bn` in `rsa_sign`. The modulus is loaded and not used.
unfoldable pub loaded_key : Option Key
loaded_key = hex_to_bn hex_n >>= λ n. hex_to_bn hex_p >>= λ p. hex_to_bn hex_q >>= λ q.
    hex_to_bn hex_dp >>= λ dp. hex_to_bn hex_dq >>= λ dq.
    hex_to_bn hex_qinv >>= λ qinv. some (record { p = p; q = q; dp = dp; dq = dq; qinv = qinv })

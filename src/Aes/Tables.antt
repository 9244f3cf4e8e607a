-- ===== src/Aes/Tables.antt =====
-- togpu/driver/xt_TOGPU_kernel.cu: the tables of AES, one file each.
mod Te0
mod Te1
mod Te2
mod Te3
mod Te4
mod Td0
mod Td1
mod Td2
mod Td3
mod Td4
unfoldable pub use Te0.{te0}
unfoldable pub use Te1.{te1}
unfoldable pub use Te2.{te2}
unfoldable pub use Te3.{te3}
unfoldable pub use Te4.{te4}
unfoldable pub use Td0.{td0}
unfoldable pub use Td1.{td1}
unfoldable pub use Td2.{td2}
unfoldable pub use Td3.{td3}
unfoldable pub use Td4.{td4}

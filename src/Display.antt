-- ===== src/Display.antt =====
-- The display's frame buffer, src/display.
pub mod MonoVlsb
pub mod Framebuf
pub mod Font
pub mod Canvas
pub mod Menus
pub mod Ssd1306
mod Tests
